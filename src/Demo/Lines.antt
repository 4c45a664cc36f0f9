-- ===== src/Demo/Lines.antt =====
-- What one line of a seeded order, return or write-off does to the stock.
use inventra.Prelude.{
  ◌≡◌, refl, Bool, true, false, some, List, [], ◌∷◌, ◌==◌, All, arith, Bool-cases, inl, inr,
}
use inventra.Prelude.Int.{ℤ, pos, ◌+ℤ◌, ◌-ℤ◌, ◌≤ℤ◌, int_laws}
use inventra.Accounts.Models.{User}
use inventra.Catalog.Models.{Product}
use inventra.Inventory.Models.{PurchaseOrder, SalesOrder, SalesOrderItem}
use inventra.Inventory.Stock.{signed_quantity}
use inventra.Demo.Random.{Random}
use inventra.Demo.Builder.{State, transaction, min_ℤ}
use inventra.Demo.Seeds.{purchase_line, opening}
use inventra.Demo.Outgoing.{sales_line, return_line, damage_line}
use inventra.Demo.Rules.{Moves, Moves-none, Moves-put, Ensures}

pub All-Unit : {A : Type 0} (xs : List A) → All (λ x. Unit {0}) xs
All-Unit [] = tt
All-Unit (x ∷ xs) = (tt, All-Unit xs)

-- `rng.randint(1, min(5, available))`
few :
    (random : Random) (available : ℤ) (g : random.Rng)
    → pos 1 ≤ℤ available
    → (q : ℤ) × (g' : random.Rng) × (random.randint (pos 1) (min_ℤ (pos 5) available) g
        ≡ some (q, g'))
      × (pos 1 ≤ℤ q)
      × (q ≤ℤ available)
few random available g n =
    let (q, g', e, lo, hi) =
      random.randint-range (pos 1) (min_ℤ (pos 5) available) g (ground arith) in
    (q, g', e, lo, ground arith)

-- the lines of a completed order: there are some, of one unit at least
abbrev pub AreSold : List SalesOrderItem → Type 0
AreSold [] = ⊥
AreSold (item ∷ items) = All (λ i. pos 1 ≤ℤ i.quantity) (item ∷ items)

module _ {random : Random} where
  -- a line of a purchase order may always be made
  pub purchase_line-Ensures :
      (po : PurchaseOrder) (is_received : Bool) (p : Product) (s : State random)
      → Ensures (λ y s'. Moves s.stock s'.stock y.1) (purchase_line po is_received p s)
  unfolding purchase_line transaction
  purchase_line-Ensures po true p s =
      let (q, g, e, lo, hi) = random.randint-range (pos 5) (pos 100) s.rng (omega arith) in
      rw e (Moves-put s.stock p.id (s.stock p.id +ℤ q) _ refl refl (λ n. omega int_laws))
  purchase_line-Ensures po false p s =
      let (q, g, e, lo, hi) = random.randint-range (pos 5) (pos 100) s.rng (omega arith) in
      rw e (Moves-none s.stock)

  -- a line of a sales order, of a product in stock
  pub sales_line-Ensures :
      (so : SalesOrder) (is_completed : Bool) (p : Product) (s : State random)
      → pos 1 ≤ℤ s.stock p.id
      → Ensures
          (λ y s'.
            Moves s.stock s'.stock y.1
            × (pos 1 ≤ℤ y.0.quantity)
            × ((p' : Product)
                → (p'.id == p.id) ≡ false
                → pos 1 ≤ℤ s.stock p'.id
                → pos 1 ≤ℤ s'.stock p'.id))
          (sales_line so is_completed p s)
  unfolding sales_line transaction
  sales_line-Ensures so true p s n =
      let (q, g, e, lo, hi) = few random (s.stock p.id) s.rng n in
      rw e (
        Moves-put s.stock p.id (s.stock p.id -ℤ q) _ refl (omega int_laws) (λ z. omega int_laws),
        lo,
        λ p' other m. rw other m,
      )
  sales_line-Ensures so false p s n =
      let (q, g, e, lo, hi) = few random (s.stock p.id) s.rng n in
      rw e (Moves-none s.stock, lo, λ p' other m. m)

  -- a write-off, of a product in stock
  pub damage_line-Ensures :
      (u : User) (us : List User) (p : Product) (s : State random)
      → pos 1 ≤ℤ s.stock p.id
      → Ensures
          (λ t s'.
            Moves s.stock s'.stock (t ∷ [])
            × ((p' : Product)
                → (p'.id == p.id) ≡ false
                → pos 1 ≤ℤ s.stock p'.id
                → pos 1 ≤ℤ s'.stock p'.id))
          (damage_line (u ∷ us) p s)
  unfolding damage_line transaction
  damage_line-Ensures u us p s n =
      let (q, g, e, lo, hi) = few random (s.stock p.id) s.rng n in
      let (c, g', e', _) = random.choice-item u us g (λ v. Unit {0}) (tt, All-Unit us) in
      rw (e, e')
        (
          Moves-put s.stock p.id (s.stock p.id -ℤ q) _ refl (omega int_laws) (λ z. omega int_laws),
          λ p' other m. rw other m,
        )

  -- a return of a line that was sold
  pub return_line-Ensures :
      (u : User) (us : List User) (so : SalesOrder) (items : List SalesOrderItem) (s : State random)
      → AreSold items
      → Ensures (λ y s'. Moves s.stock s'.stock y.1) (return_line (u ∷ us) (so, items) s)
  unfolding return_line transaction
  return_line-Ensures u us so [] s sold = absurd sold
  return_line-Ensures u us so (i ∷ is) s sold =
      let (item, g, e, n) = random.choice-item i is s.rng (λ x. pos 1 ≤ℤ x.quantity) sold in
      let (q, g1, e1, lo, hi) = random.randint-range (pos 1) item.quantity g n in
      let (c, g2, e2, _) =
        random.choice-item u us (random.is_below 70 g1).1 (λ v. Unit {0}) (tt, All-Unit us) in
      let (a, g3, e3, _) = random.choice-item u us g2 (λ v. Unit {0}) (tt, All-Unit us) in
      elim (Bool-cases (random.is_below 70 g1).0) [
        | inl approves ↦
            rw (e, e1, e2, approves, e3)
              (Moves-put s.stock item.product (s.stock item.product +ℤ q) _ refl refl
                (λ z. omega int_laws))
        | inr refuses ↦ rw (e, e1, e2, refuses) (Moves-none s.stock)
      ]

  -- the opening balance of a product
  pub opening-Ensures :
      (u : User) (us : List User) (p : Product) (s : State random)
      → Ensures
          (λ t s'.
            (s'.stock ≡ s.stock) × (t.product ≡ p.id) × (signed_quantity t ≡ p.current_stock))
          (opening (u ∷ us) p s)
  unfolding opening transaction
  opening-Ensures u us p s =
      let (c, g, e, _) = random.choice-item u us s.rng (λ v. Unit {0}) (tt, All-Unit us) in
      rw e (refl, refl, refl)
