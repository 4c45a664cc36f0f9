-- ===== src/Demo/Passes.antt =====
-- What a seeded order and the loop over the orders do to the stock.
use inventra.Prelude.{
  Pairwise, IsDistinct, ℕ, suc, ◌≤◌, ◌≡◌, Bool, true, false, Option, none, some, List, [], ◌∷◌,
  ◌==◌, map, All, arith, keep, length, Bool-cases, inl, inr,
}
use inventra.Prelude.Int.{ℤ, pos, pos_part, ltb_ℤ, ◌≤ℤ◌}
use inventra.Accounts.Models.{User}
use inventra.Catalog.Models.{Product}
use inventra.Inventory.Models.{PurchaseOrder, SalesOrder, SalesOrderItem, InventoryTransaction}
use inventra.Demo.Random.{Random, Labels}
use inventra.Demo.Builder.{State, collect, min, join}
use inventra.Demo.Seeds.{purchase_line, finish_purchase, build_purchase_order}
use inventra.Demo.Outgoing.{Sale, sales_line, finish_sale, sell, build_sales_order}
use inventra.Demo.Orders.{is_completed}
use inventra.Demo.Rules.{Moves, Moves-none, Ensures, weaken, bind-Ensures, collect-Moves}
use inventra.Demo.Lines.{AreSold, All-Unit, purchase_line-Ensures, sales_line-Ensures}

pub Pairwise-Unit : {A : Type 0} (xs : List A) → Pairwise (λ x y. Unit {0}) xs
Pairwise-Unit [] = tt
Pairwise-Unit (x ∷ xs) = (All-Unit xs, Pairwise-Unit xs)

-- a sample of some items
sample-some :
    {A : Type 0} (random : Random) (xs : List A) (n : ℕ) (g : random.Rng)
    → 1 ≤ n
    → n ≤ length xs
    → (y : A) × (ys : List A) × (g' : random.Rng) × (random.sample xs n g ≡ some (y ∷ ys, g'))
sample-some {A} random xs n g one enough =
    let (ys, g', e, len, _, _) =
      random.sample-items xs n g (λ x. Unit {0}) (λ x. 0) enough (All-Unit xs) in
    go ys g' e len
  where
    go :
        (ys : List A) (g' : random.Rng)
        → random.sample xs n g ≡ some (ys, g')
        → length ys ≡ n
        → (z : A) × (zs : List A) × (g'' : random.Rng) × (random.sample xs n g ≡ some (z ∷ zs, g''))
    go [] g' e len = absurd (omega arith)
    go (y ∷ ys) g' e len = (y, ys, g', e)

-- what a pass over a sales order leaves
abbrev pub SaleMoves : (ℕ → ℤ) → (ℕ → ℤ) → Option Sale → Type 0
SaleMoves before after none = Moves before after []
SaleMoves before after (some (so, items, txns)) = Moves before after txns × AreSold items

sold-lines :
    (ys : List (SalesOrderItem × List InventoryTransaction)) (n : ℕ)
    → length ys ≡ suc n
    → All (λ y. pos 1 ≤ℤ y.0.quantity) ys
    → AreSold (map (λ y. y.0) ys)
sold-lines [] n len h = absurd (omega arith)
sold-lines (y ∷ ys) n len h = (h.0, rest ys h.1)
  where
    rest :
        (zs : List (SalesOrderItem × List InventoryTransaction))
        → All (λ z. pos 1 ≤ℤ z.0.quantity) zs
        → All (λ i. pos 1 ≤ℤ i.quantity) (map (λ z. z.0) zs)
    rest [] h = tt
    rest (z ∷ zs) h = (h.0, rest zs h.1)

All-keep_of :
    {A : Type 0} (P Q : A → Type 0) (test : A → Bool) (xs : List A)
    → ((x : A) → test x ≡ true → P x → Q x)
    → All P xs
    → All Q (keep test xs)
All-keep_of P Q test [] f h = tt
All-keep_of P Q test (x ∷ xs) f h = elim (Bool-cases (test x)) [
  | inl kept ↦ rw kept (f x kept h.0, All-keep_of P Q test xs f h.1)
  | inr out ↦ rw out (All-keep_of P Q test xs f h.1)
]

Pairwise-keep :
    {A : Type 0} (P : A → A → Type 0) (test : A → Bool) (xs : List A)
    → Pairwise P xs
    → Pairwise P (keep test xs)
Pairwise-keep P test [] h = tt
Pairwise-keep P test (x ∷ xs) h = elim (Bool-cases (test x)) [
  | inl kept ↦
      rw kept (All-keep_of (P x) (P x) test xs (λ y e p. p) h.0, Pairwise-keep P test xs h.1)
  | inr out ↦ rw out (Pairwise-keep P test xs h.1)
]

-- those of a list of different products that are in stock
pub in_stock :
    (stock : ℕ → ℤ) (ps : List Product)
    → IsDistinct (λ p. p.id) ps
    → let candidates = keep (λ (p : Product). ltb_ℤ (pos 0) (stock p.id)) ps in
      All (λ p. pos 1 ≤ℤ stock p.id) candidates × IsDistinct (λ p. p.id) candidates
in_stock stock ps apart = (
  All-keep_of (λ p. Unit {0}) (λ p. pos 1 ≤ℤ stock p.id)
      (λ (p : Product). ltb_ℤ (pos 0) (stock p.id)) ps (λ p e t. ground arith) (All-Unit ps),
  Pairwise-keep _ (λ (p : Product). ltb_ℤ (pos 0) (stock p.id)) ps apart,
)

module _ {random : Random} where
  collect-purchase_line :
      (po : PurchaseOrder) (is_received : Bool) (ps : List Product) (s : State random)
      → Ensures
          (λ ys s'. Moves s.stock s'.stock (join (map (λ y. y.1) ys)))
          (collect (purchase_line po is_received) ps s)
  collect-purchase_line po is_received ps s =
      weaken _ _ (collect (purchase_line po is_received) ps s)
        (collect-Moves (λ p s'. Unit) (λ p p'. Unit) (λ y. Unit) (λ y. y.1)
          (purchase_line po is_received)
          (λ p s1 ready.
            weaken _ _ (purchase_line po is_received p s1)
              (purchase_line-Ensures po is_received p s1) (λ y s2 m. (m, tt, λ p' a r. tt)))
          ps s (All-Unit ps) (Pairwise-Unit ps))
        (λ ys s' h. h.0)

  finish_purchase-Ensures :
      (po : PurchaseOrder) (is_received : Bool) (ps : List Product) (s : State random)
      → Ensures (λ r s'. Moves s.stock s'.stock r.2) (finish_purchase po is_received ps s)
  unfolding finish_purchase
  finish_purchase-Ensures po is_received ps s =
      bind-Ensures (λ ys s'. Moves s.stock s'.stock (join (map (λ y. y.1) ys)))
        (λ r s'. Moves s.stock s'.stock r.2) (collect (purchase_line po is_received) ps) _ s
        (collect-purchase_line po is_received ps s) (λ lines s' moved. moved)

  pub build_purchase_order-Ensures :
      (u : User) (us : List User) (products : List Product) (s : State random)
      → 3 ≤ length products
      → Ensures (λ r s'. Moves s.stock s'.stock r.2) (build_purchase_order products (u ∷ us) s)
  unfolding build_purchase_order
  build_purchase_order-Ensures u us products s enough =
      let (k, g, e, lo, hi) = random.randint-range (pos 1) (pos 3) s.rng (omega arith) in
      let (first, rest, g1, e1) =
        sample-some random products (pos_part k) g (ground arith) (ground arith) in
      let (c, g2, e2, _) =
        random.choice-item u us (random.is_below 80 g1).1 (λ v. Unit {0}) (tt, All-Unit us) in
      rw (e, e1, e2) (finish_purchase-Ensures _ (random.is_below 80 g1).0 (first ∷ rest) _)

  -- the products of a sales order are different and in stock
  collect-sales_line :
      (so : SalesOrder) (is_completed : Bool) (ps : List Product) (s : State random)
      → All (λ p. pos 1 ≤ℤ s.stock p.id) ps
      → IsDistinct (λ p. p.id) ps
      → Ensures
          (λ ys s'.
            Moves s.stock s'.stock (join (map (λ y. y.1) ys))
            × All (λ y. pos 1 ≤ℤ y.0.quantity) ys
            × (length ys ≡ length ps))
          (collect (sales_line so is_completed) ps s)
  collect-sales_line so is_completed ps s ready apart =
      collect-Moves (λ p s'. pos 1 ≤ℤ s'.stock p.id) (λ p p'. (p'.id == p.id) ≡ false)
        (λ y. pos 1 ≤ℤ y.0.quantity) (λ y. y.1) (sales_line so is_completed)
        (λ p s1 n. sales_line-Ensures so is_completed p s1 n) ps s ready apart

  finish_sale-Ensures :
      (so : SalesOrder) (is_completed : Bool) (p : Product) (ps : List Product) (s : State random)
      → All (λ q. pos 1 ≤ℤ s.stock q.id) (p ∷ ps)
      → IsDistinct (λ q. q.id) (p ∷ ps)
      → Ensures (λ r s'. SaleMoves s.stock s'.stock r) (finish_sale so is_completed (p ∷ ps) s)
  unfolding finish_sale
  finish_sale-Ensures so is_completed p ps s ready apart =
      bind-Ensures
        (λ ys s'.
          Moves s.stock s'.stock (join (map (λ y. y.1) ys))
          × All (λ y. pos 1 ≤ℤ y.0.quantity) ys
          × (length ys ≡ suc (length ps)))
        (λ r s'. SaleMoves s.stock s'.stock r) (collect (sales_line so is_completed) (p ∷ ps)) _ s
        (collect-sales_line so is_completed (p ∷ ps) s ready apart)
        (λ lines s' (moved, some_units, len). (moved, sold-lines lines (length ps) len some_units))

  sell-Ensures :
      (labels : Labels) (n : ℕ) (u : User) (us : List User) (ps : List Product) (s : State random)
      → All (λ q. pos 1 ≤ℤ s.stock q.id) ps
      → IsDistinct (λ q. q.id) ps
      → Ensures (λ r s'. SaleMoves s.stock s'.stock r) (sell labels n (u ∷ us) ps s)
  unfolding sell
  sell-Ensures labels n u us [] s ready apart = Moves-none s.stock
  sell-Ensures labels n u us (p ∷ ps) s ready apart =
      let (c, g, e, _) =
        random.choice-item u us (random.is_below 80 s.rng).1 (λ v. Unit {0}) (tt, All-Unit us) in
      rw e (finish_sale-Ensures _ (random.is_below 80 s.rng).0 p ps _ ready apart)

  pub build_sales_order-Ensures :
      (labels : Labels) (n : ℕ) (u : User) (us : List User) (products : List Product)
      (s : State random)
      → IsDistinct (λ q. q.id) products
      → Ensures
          (λ r s'. SaleMoves s.stock s'.stock r)
          (build_sales_order labels n products (u ∷ us) s)
  unfolding build_sales_order
  build_sales_order-Ensures labels n u us products s apart =
      let (picked, g, e, len, _, different) =
        random.sample-items products (min 3 (length products)) s.rng (λ p. Unit {0}) (λ p. p.id)
          (ground arith) (All-Unit products) in
      let (ready, apart') = in_stock s.stock picked (different apart) in
      rw e (sell-Ensures labels n u us _ _ ready apart')
