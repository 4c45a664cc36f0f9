-- ===== src/Demo/Loop.antt =====
-- The loop over the orders, the returns and the write-offs: the lists of rows agree with the stock.
use inventra.Prelude.{
  IsDistinct, ℕ, ◌≤◌, ◌≡◌, refl, ap, false, Option, none, some, List, [], ◌∷◌, ◌++◌, ◌==◌, ◌/◌, map,
  All, arith, keep, length, Bool-cases, inl, inr, if◌then◌else◌, subst,
}
use inventra.Prelude.Int.{pos, ltb_ℤ, ◌≤ℤ◌}
use inventra.Accounts.Models.{User}
use inventra.Catalog.Models.{Product}
use inventra.Inventory.Models.{SalesOrder, SalesOrderItem, InventoryTransaction}
use inventra.Demo.Random.{Random, Labels}
use inventra.Demo.Builder.{State, collect, min, max, join}
use inventra.Demo.Seeds.{build_purchase_order}
use inventra.Demo.Outgoing.{
  Sale, build_sales_order, return_line, build_returns, damage_line, build_damage,
}
use inventra.Demo.Orders.{Orders, is_completed, add_sale, order_pass, order_passes}
use inventra.Demo.Rules.{
  Moves, Moves-append, Moves-none, Moves-still, Ensures, weaken, bind-Ensures, collect-Moves,
}
use inventra.Demo.Lines.{AreSold, return_line-Ensures, damage_line-Ensures}
use inventra.Demo.Passes.{
  SaleMoves, Pairwise-Unit, in_stock, build_purchase_order-Ensures, build_sales_order-Ensures,
}

All-append : {A : Type 0} (P : A → Type 0) (xs ys : List A) → All P xs → All P ys → All P (xs ++ ys)
All-append P [] ys h h' = h'
All-append P (x ∷ xs) ys h h' = (h.0, All-append P xs ys h.1 h')

add_sold :
    (so : SalesOrder) (items : List SalesOrderItem) (sold : List (SalesOrder × List SalesOrderItem))
    → AreSold items
    → All (λ o. AreSold o.1) sold
    → All (λ o. AreSold o.1) (if is_completed so.status then sold ++ (so, items) ∷ [] else sold)
add_sold so items sold h all = elim (Bool-cases (is_completed so.status)) [
  | inl done ↦ rw done (All-append (λ o. AreSold o.1) sold ((so, items) ∷ []) all (h, tt))
  | inr open_order ↦ rw open_order all
]

join-singles : (ts : List InventoryTransaction) → join (map (λ t. t ∷ []) ts) ≡ ts
join-singles [] = refl
join-singles (t ∷ ts) = ap (◌∷◌ t) (join-singles ts)

module _ {random : Random} where
  -- the lists agree with the stock, and the orders kept for returns have lines
  pub record Agrees (rows : Orders) (s : State random) : Type 0 where
    pub moves : Moves (λ k. pos 0) s.stock rows.transactions
    pub sold : All (λ o. AreSold o.1) rows.sold

  add_sale-Agrees :
      (result : Option Sale) (rows : Orders) (s s' : State random)
      → SaleMoves s.stock s'.stock result
      → Agrees rows s
      → Agrees (add_sale result rows) s'
  unfolding add_sale
  add_sale-Agrees none rows s s' m h = record {
    moves = Moves-still (λ k. pos 0) s.stock s'.stock rows.transactions h.moves m;
    sold = h.sold;
  }
  add_sale-Agrees (some (so, items, txns)) rows s s' m h = record {
    moves = Moves-append (λ k. pos 0) s.stock s'.stock rows.transactions txns h.moves m.0;
    sold = add_sold so items rows.sold m.1 h.sold;
  }

  module _ (labels : Labels) (products : List Product) (m : User) (ms : List User) (u : User)
      (us : List User) (enough : 3 ≤ length products)
      (apart : IsDistinct (λ p. p.id) products) where
    order_pass-Agrees :
        (n : ℕ) (rows : Orders) (s : State random)
        → Agrees rows s
        → Ensures Agrees (order_pass labels products (m ∷ ms) (u ∷ us) n rows s)
    unfolding order_pass
    order_pass-Agrees n rows s h =
        let s1 : State random = record s { rng = (random.is_below 50 s.rng).1 } in
        elim (Bool-cases (random.is_below 50 s.rng).0) [
          | inl buys ↦ rw buys (
              bind-Ensures (λ r s'. Moves s.stock s'.stock r.2) Agrees
                (build_purchase_order products (m ∷ ms)) _ s1
                (build_purchase_order-Ensures m ms products s1 enough)
                (λ r s' moved. record {
                  moves =
                      Moves-append (λ k. pos 0) s.stock s'.stock rows.transactions r.2 h.moves
                        moved;
                  sold = h.sold;
                }))
          | inr sells ↦ rw sells (
              bind-Ensures (λ r s'. SaleMoves s.stock s'.stock r) Agrees
                (build_sales_order labels n products (u ∷ us)) _ s1
                (build_sales_order-Ensures labels n u us products s1 apart)
                (λ r s' moved. add_sale-Agrees r rows s s' moved h))
        ]

    pub order_passes-Agrees :
        (ns : List ℕ) (rows : Orders) (s : State random)
        → Agrees rows s
        → Ensures Agrees (order_passes labels products (m ∷ ms) (u ∷ us) ns rows s)
    unfolding order_passes
    order_passes-Agrees [] rows s h = h
    order_passes-Agrees (n ∷ ns) rows s h =
        bind-Ensures Agrees Agrees (order_pass labels products (m ∷ ms) (u ∷ us) n rows) _ s
          (order_pass-Agrees n rows s h) (λ rows' s' h'. order_passes-Agrees ns rows' s' h')

  pub build_returns-Ensures :
      (sold : List (SalesOrder × List SalesOrderItem)) (u : User) (us : List User)
      (s : State random)
      → All (λ o. AreSold o.1) sold
      → Ensures (λ r s'. Moves s.stock s'.stock r.1) (build_returns sold (u ∷ us) s)
  unfolding build_returns
  build_returns-Ensures [] u us s h = Moves-none s.stock
  build_returns-Ensures (o ∷ os) u us s h =
      let size = min (length (o ∷ os)) (max 1 (length (o ∷ os) / 20)) in
      let (picked, g, e, len, good, _) =
        random.sample-items (o ∷ os) size s.rng (λ x. AreSold x.1) (λ x. 0) (ground arith) h in
      let s1 : State random = record s { rng = g } in
      rw e (
        bind-Ensures (λ ys s'. Moves s.stock s'.stock (join (map (λ y. y.1) ys)))
          (λ r s'. Moves s.stock s'.stock r.1) (collect (return_line (u ∷ us)) picked) _ s1
          (weaken _ _ (collect (return_line (u ∷ us)) picked s1)
            (collect-Moves (λ x s'. AreSold x.1) (λ x y. Unit {0}) (λ y. Unit {0}) (λ y. y.1)
              (return_line (u ∷ us))
              (λ x s2 ready.
                weaken _ _ (return_line (u ∷ us) x s2) (return_line-Ensures u us x.0 x.1 s2 ready)
                  (λ y s3 moved. (moved, tt, λ x' a r. r)))
              picked s1 good (Pairwise-Unit picked))
            (λ ys s2 k. k.0))
          (λ lines s' moved. moved))

  pub build_damage-Ensures :
      (products : List Product) (m : User) (ms : List User) (count : ℕ) (s : State random)
      → IsDistinct (λ p. p.id) products
      → Ensures (λ ts s'. Moves s.stock s'.stock ts) (build_damage products (m ∷ ms) count s)
  unfolding build_damage
  build_damage-Ensures products m ms count s apart =
      let candidates = keep (λ (p : Product). ltb_ℤ (pos 0) (s.stock p.id)) products in
      let (ready, apart') = in_stock s.stock products apart in
      let (picked, g, e, len, good, different) =
        random.sample-items candidates (min count (length candidates)) s.rng
          (λ p. pos 1 ≤ℤ s.stock p.id) (λ p. p.id) (ground arith) ready in
      let s1 : State random = record s { rng = g } in
      rw e (
        weaken _ _ (collect (damage_line (m ∷ ms)) picked s1)
          (collect-Moves (λ p s'. pos 1 ≤ℤ s'.stock p.id) (λ p p'. (p'.id == p.id) ≡ false)
            (λ t. Unit {0}) (λ t. t ∷ []) (damage_line (m ∷ ms))
            (λ p s2 n.
              weaken _ _ (damage_line (m ∷ ms) p s2) (damage_line-Ensures m ms p s2 n)
                (λ t s3 h. (h.0, tt, h.1)))
            picked s1 good (different apart'))
          (λ ts s2 h. subst (λ us. Moves s.stock s2.stock us) (join-singles ts) h.0))
