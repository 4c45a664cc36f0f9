-- ===== src/Demo/Balance.antt =====
-- The seeded data agree with the ledger.
use inventra.Prelude.{
  IsDistinct, ℕ, ◌≤◌, ◌≡◌, refl, sym, ap, ◌∙◌, true, false, List, [], ◌∷◌, ◌==◌, ◌/◌, All, arith,
  keep, length, Bool-cases, inl, inr, if◌then◌else◌, subst, sum_by, sum_by-cons, sum_by-nil,
  ==_refl, eq_of_==, ne_of_==,
}
use inventra.Prelude.Int.{ℤ, pos, ltb_ℤ, ◌≤ℤ◌, ◌+ℤ◌, +ℤ_zero, zero-+ℤ}
use inventra.Accounts.Models.{User}
use inventra.Catalog.Models.{Product}
use inventra.Inventory.Models.{InventoryTransaction}
use inventra.Inventory.Stock.{balance}
use inventra.Demo.Random.{Random, Labels}
use inventra.Demo.Builder.{State, collect, max}
use inventra.Demo.Seeds.{opening}
use inventra.Demo.Outgoing.{build_returns, build_damage}
use inventra.Demo.Orders.{Orders, is_manager, range, stock_of, order_passes, seed_orders}
use inventra.Demo.Rules.{
  Moves, Moves-append, Ensures, weaken, bind-Ensures, All-keep, balance-nil, balance-cons,
}
use inventra.Demo.Lines.{opening-Ensures}
use inventra.Demo.Loop.{Agrees, order_passes-Agrees, build_returns-Ensures, build_damage-Ensures}

-- what the products with the key `k` have in stock
abbrev initial : ℕ → List Product → ℤ
initial k = sum_by (λ (p : Product). if p.id == k then p.current_stock else pos 0)

initial-empty :
    (k : ℕ) (p : Product) (ps : List Product)
    → p.current_stock ≡ pos 0
    → initial k ps ≡ initial k (p ∷ ps)
initial-empty k p ps e = elim (Bool-cases (p.id == k)) [
  | inl same ↦ rw (sum_by-cons _ p ps, same, e) (sym (zero-+ℤ (initial k ps)))
  | inr other ↦ rw (sum_by-cons _ p ps, other) (sym (zero-+ℤ (initial k ps)))
]

-- the dictionary has the stock of each of some different products
stock_of-initial :
    (ps : List Product) (stock : ℕ → ℤ) (k : ℕ)
    → IsDistinct (λ p. p.id) ps
    → All (λ p. stock p.id ≡ pos 0) ps
    → stock_of ps stock k ≡ stock k +ℤ initial k ps
unfolding stock_of
stock_of-initial [] stock k apart zeros = rw (sum_by-nil _) (sym (+ℤ_zero (stock k)))
stock_of-initial (p ∷ ps) stock k apart zeros =
    let later = λ (j : ℕ). if j == p.id then p.current_stock else stock j in
    let zeros' : All (λ q. later q.id ≡ pos 0) ps =
      All-keep (λ q. stock q.id ≡ pos 0) (λ q. later q.id ≡ pos 0) (λ q. (q.id == p.id) ≡ false) ps
        (λ q other z. rw other z) apart.0 zeros.1 in
    stock_of-initial ps later k apart.1 zeros' ∙ elim (Bool-cases (k == p.id)) [
      | inl same ↦
          let here : k ≡ p.id = eq_of_== k p.id same in
          let key : (p.id == k) ≡ true = rw here (==_refl p.id) in
          let none_yet : stock k ≡ pos 0 = rw here zeros.0 in
          rw (same, none_yet, sum_by-cons, key) (sym (zero-+ℤ _))
      | inr other ↦
          let ne = ne_of_== k p.id other in
          let key : (p.id == k) ≡ false = ground arith in
          rw (other, sum_by-cons, key) (ap (◌+ℤ◌ (stock k)) (sym (zero-+ℤ _)))
    ]

stock_of-nonneg :
    (ps : List Product) (stock : ℕ → ℤ) (k : ℕ)
    → All (λ p. pos 0 ≤ℤ p.current_stock) ps
    → pos 0 ≤ℤ stock k
    → pos 0 ≤ℤ stock_of ps stock k
unfolding stock_of
stock_of-nonneg [] stock k all n = n
stock_of-nonneg (p ∷ ps) stock k all n = stock_of-nonneg ps _ k all.1 (ground (arith, all.0))

-- the products at the start: at least three, with different identifiers and no negative stock
pub record AreSeeds (products : List Product) : Type 0 where
  pub enough : 3 ≤ length products
  pub apart : IsDistinct (λ p. p.id) products
  pub nonneg : All (λ p. pos 0 ≤ℤ p.current_stock) products

starts :
    (products : List Product) (ts : List InventoryTransaction)
    → AreSeeds products
    → ((k : ℕ) → balance k ts ≡ initial k products)
    → Moves (λ k. pos 0) (stock_of products (λ j. pos 0)) ts
starts products ts h eq k = (
  stock_of-initial products (λ j. pos 0) k h.apart (zeros products)
      ∙ ap (◌+ℤ◌ (pos 0)) (sym (eq k)),
  λ n. stock_of-nonneg products (λ j. pos 0) k h.nonneg n,
)
  where
    zeros : (ps : List Product) → All (λ p. pos 0 ≡ pos 0) ps
    zeros [] = tt
    zeros (p ∷ ps) = (refl, zeros ps)

module _ {random : Random} where
  -- the opening balances are those of the products
  openings-Ensures :
      (u : User) (us : List User) (ps : List Product) (s : State random)
      → All (λ p. pos 0 ≤ℤ p.current_stock) ps
      → Ensures
          (λ ts s'. (s'.stock ≡ s.stock) × ((k : ℕ) → balance k ts ≡ initial k ps))
          (collect (opening (u ∷ us)) (keep (λ (p : Product). ltb_ℤ (pos 0) p.current_stock) ps) s)
  unfolding collect
  openings-Ensures u us [] s all = (refl, λ k. balance-nil k ∙ sym (sum_by-nil _))
  openings-Ensures u us (p ∷ ps) s all = elim (Bool-cases (ltb_ℤ (pos 0) p.current_stock)) [
    | inr empty ↦ rw empty (
        weaken _ _
          (collect (opening (u ∷ us)) (keep (λ (q : Product). ltb_ℤ (pos 0) q.current_stock) ps) s)
          (openings-Ensures u us ps s all.1)
          (λ ts s' (same, eq). (same, λ k. eq k ∙ initial-empty k p ps (ground (arith, all.0)))))
    | inl some_stock ↦ rw some_stock (
        bind-Ensures _ _ (opening (u ∷ us) p) _ s (opening-Ensures u us p s)
          (λ t s1 (same, at, amount).
            bind-Ensures _ _
              (collect (opening (u ∷ us))
                (keep (λ (q : Product). ltb_ℤ (pos 0) q.current_stock) ps))
              _ s1 (openings-Ensures u us ps s1 all.1)
              (λ ts s2 (same', eq). (
                same' ∙ same,
                λ k. balance-cons k t ts ∙ rw (at, amount, eq k) (sym (sum_by-cons _ p ps)),
              ))))
  ]

  -- the ledger rows that are made sum up to the dictionary of stocks
  pub seed_orders-Agrees :
      (labels : Labels) (num_orders : ℕ) (products : List Product) (m : User) (ms : List User)
      (u : User) (us : List User) (s : State random)
      → AreSeeds products
      → keep is_manager (u ∷ us) ≡ m ∷ ms
      → Ensures
          (λ made s'. Moves (λ k. pos 0) s'.stock made.0.transactions)
          (seed_orders labels num_orders products (u ∷ us) s)
  unfolding seed_orders
  seed_orders-Agrees labels num_orders products m ms u us s h managers =
      let s0 : State random = record s { stock = stock_of products (λ j. pos 0) } in
      rw managers (
        bind-Ensures _ _
          (collect (opening (m ∷ ms))
            (keep (λ (p : Product). ltb_ℤ (pos 0) p.current_stock) products))
          _ s0 (openings-Ensures m ms products s0 h.nonneg)
          (λ openings s1 (same, eq).
            let zero_rows : Orders = record {
              purchase_orders = [];
              purchase_items = [];
              sales_orders = [];
              sales_items = [];
              transactions = openings;
              sold = [];
            } in
            bind-Ensures Agrees _
              (order_passes labels products (m ∷ ms) (u ∷ us) (range 0 num_orders) zero_rows) _ s1
              (order_passes-Agrees labels products m ms u us h.enough h.apart (range 0 num_orders)
                zero_rows s1
                (record {
                  moves =
                      subst (λ f. Moves (λ k. pos 0) f openings) (sym same)
                        (starts products openings h eq);
                  sold = tt;
                }))
              (λ rows s2 agrees.
                bind-Ensures _ _ (build_returns rows.sold (u ∷ us)) _ s2
                  (build_returns-Ensures rows.sold u us s2 agrees.sold)
                  (λ r s3 moved.
                    bind-Ensures _ _ (build_damage products (m ∷ ms) (max 1 (num_orders / 40))) _ s3
                      (build_damage-Ensures products m ms (max 1 (num_orders / 40)) s3 h.apart)
                      (λ ts s4 moved'.
                        Moves-append (λ k. pos 0) s3.stock s4.stock _ ts
                          (Moves-append (λ k. pos 0) s2.stock s3.stock rows.transactions r.1
                            agrees.moves moved)
                          moved')))))
