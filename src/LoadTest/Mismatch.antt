-- ===== src/LoadTest/Mismatch.antt =====
-- A reset product has stock that the ledger does not account for.
use inventra.Prelude.{
  arith, map, subst, sym, ne_of_==, Bool, false, All, if◌then◌else◌, ℕ, ◌≡◌, ◌≢◌, refl, ap, ◌∙◌,
  true, ◌&&◌, some, List, ◌==◌, ==_refl, sum_by, sum_by-congr, [], ◌∷◌, ◌⊎◌, inl, inr, Bool-cases,
}
use inventra.Prelude.Int.{ℤ, pos, zero-+ℤ, int_laws, ◌≤ℤ◌, ◌+ℤ◌}
use inventra.Catalog.Models.{Product}
use inventra.Inventory.Models.{InventoryTransaction, Return, SalesOrder, SalesOrderItem}
use inventra.Inventory.Stock.{balance, contribution, is_integer_field}
use inventra.Inventory.Ledger.{IsBalanced}
use inventra.Inventory.Requests.{exists}
use inventra.Session.{Session, Result, ok, raised, protected_error}
use inventra.Django.Env.{Env}
use inventra.LoadTest.Reset.{restock, clear, delete_stale, is_stale, reset}

sum_by-zero : {A : Type 0} (xs : List A) → sum_by (λ (x : A). pos 0) xs ≡ pos 0
unfolding sum_by
sum_by-zero [] = refl
sum_by-zero (x ∷ xs) = zero-+ℤ _ ∙ sum_by-zero xs

-- how many items pass a test, as an integer
abbrev counted : {A : Type 0} → (A → Bool) → List A → ℤ
counted p xs = sum_by (λ x. if p x then pos 1 else pos 0) xs

counted-nonneg : {A : Type 0} (p : A → Bool) (xs : List A) → pos 0 ≤ℤ counted p xs
unfolding sum_by
counted-nonneg p [] = omega int_laws
counted-nonneg p (x ∷ xs) =
    let rest = counted-nonneg p xs in
    elim (Bool-cases (p x)) [ inl e ↦ rw e (omega int_laws) | inr e ↦ rw e (omega int_laws) ]

counted-zero :
    {A : Type 0} (p : A → Bool) (xs : List A) → counted p xs ≡ pos 0 → All (λ x. p x ≡ false) xs
unfolding sum_by
counted-zero p [] h = tt
counted-zero p (x ∷ xs) h =
    let rest = counted-nonneg p xs in
    elim (Bool-cases (p x)) [
      | inl e ↦
          let h' : pos 1 +ℤ counted p xs ≡ pos 0 =
            subst (λ b. (if b then pos 1 else pos 0) +ℤ counted p xs ≡ pos 0) e h in
          let more : pos 1 ≤ℤ pos 1 +ℤ counted p xs = omega int_laws in
          let few : pos 1 ≤ℤ pos 0 = subst (λ n. pos 1 ≤ℤ n) h' more in absurd (omega arith)
      | inr e ↦
          let h' : pos 0 +ℤ counted p xs ≡ pos 0 =
            subst (λ b. (if b then pos 1 else pos 0) +ℤ counted p xs ≡ pos 0) e h in
          (e, counted-zero p xs (sym (zero-+ℤ (counted p xs)) ∙ h'))
    ]

module _ (env : Env) where
  -- the deletion of the rows that pass a test leaves none of them
  delete-none :
      (p : InventoryTransaction → Bool) (ts : List InventoryTransaction)
      → All (λ t. p t ≡ false) (env.orm.transactions.delete p ts)
  delete-none p ts = counted-zero p (env.orm.transactions.delete p ts) (
      env.orm.transactions.sum-delete (λ t. if p t then pos 1 else pos 0) p ts
      ∙ sum_by-congr _ (λ t. pos 0) ts
          (λ t. elim (Bool-cases (p t)) [ inl e ↦ rw e refl | inr e ↦ rw e refl ])
      ∙ sum_by-zero ts)

  -- a product's ledger rows sum up to zero when they are deleted
  balance-delete :
      (k : ℕ) (ts : List InventoryTransaction)
      → balance k (env.orm.transactions.delete (λ (t : InventoryTransaction). t.product == k) ts)
        ≡ pos 0
  unfolding balance
  balance-delete k ts =
      env.orm.transactions.sum-delete (contribution k)
        (λ (t : InventoryTransaction). t.product == k) ts
      ∙ sum_by-congr _ (λ t. pos 0) ts
          (λ t. elim (Bool-cases (t.product == k)) [
            | inl same ↦ rw same refl
            | inr other ↦ rw other refl
          ])
      ∙ sum_by-zero ts

  -- a return is of an order among `ids` that has no items
  abbrev has_return : List ℕ → List SalesOrderItem → List Return → List SalesOrder → Bool
  has_return ids items returns orders =
      exists env.orm.sales_orders
        (λ so.
          is_stale env ids items so
          && exists env.orm.returns (λ (r : Return). r.sales_order == so.id) returns)
        orders

  -- a return is of an order that has items of the product, and no others
  abbrev pub is_returned : ℕ → Session → Bool
  is_returned k s =
      has_return
        (map (λ (i : SalesOrderItem). i.sales_order)
          (env.orm.sales_order_items.filter (λ (i : SalesOrderItem). i.product == k)
            s.sales_order_items))
        (env.orm.sales_order_items.delete (λ (i : SalesOrderItem). i.product == k)
          s.sales_order_items)
        s.returns s.sales_orders

  -- refused when the test holds, and done when it does not
  abbrev Ends : Bool → Result (Unit {0}) × Session → Session → Type 0
  Ends refused r t =
      ((refused ≡ true) × (r ≡ (raised protected_error, t)))
      ⊎ ((refused ≡ false) × (r ≡ (ok tt, t)))

  delete_stale-Ends :
      (ids : List ℕ) (s : Session)
      → (t : Session) × (t.products ≡ s.products)
        × (t.transactions ≡ s.transactions)
        × Ends
            (has_return ids s.sales_order_items s.returns s.sales_orders)
            (delete_stale env ids s)
            t
  unfolding delete_stale
  delete_stale-Ends ids s =
      let stale = is_stale env ids s.sales_order_items in
      elim (Bool-cases (
        exists env.orm.sales_orders
          (λ so.
            stale so && exists env.orm.returns (λ (r : Return). r.sales_order == so.id) s.returns)
          s.sales_orders)) [
            | inl refused ↦ (s, refl, refl, inl (refused, rw refused refl))
            | inr allowed ↦ (
              record s {
                db = record s.db {
                  sales_orders = env.orm.sales_orders.delete stale s.sales_orders;
                };
              },
              refl,
              refl,
              inr (allowed, rw allowed refl),
            )
          ]

  -- no ledger row is of the product
  abbrev HasNone : ℕ → List InventoryTransaction → Type 0
  HasNone k = All (λ (row : InventoryTransaction). (row.product == k) ≡ false)

  clear-Ends :
      (k : ℕ) (s : Session)
      → (t : Session) × (t.products ≡ s.products)
        × (balance k t.transactions ≡ pos 0)
        × HasNone k t.transactions
        × Ends (is_returned k s) (clear env k s) t
  unfolding clear
  clear-Ends k s =
      let (t, products, transactions, ends) = delete_stale-Ends _ _ in
      (
        t,
        products,
        ap (balance k) transactions ∙ balance-delete k s.transactions,
        subst (HasNone k) (sym transactions)
            (delete-none (λ (row : InventoryTransaction). row.product == k) s.transactions),
        ends,
      )

  All-false :
      (k : ℕ) (ts : List InventoryTransaction)
      → HasNone k ts
      → All (λ (row : InventoryTransaction). row.product ≢ k) ts
  All-false k [] h = tt
  All-false k (t ∷ ts) h = (ne_of_== t.product k h.0, All-false k ts h.1)

  -- Resetting the product of the load test, for a product that the table has and a stock within the
  -- range of the column, leaves no ledger row of the product. If a return is of an order that has
  -- items of this product and no others, it then raises `ProtectedError`. Otherwise the command
  -- returns and the product has the new stock, so that the ledger does not account for it unless it
  -- is zero.
  pub reset-unaccounted :
      (stock : ℤ) (p : Product) (s : Session)
      → env.orm.products.get p.id s.products ≡ some p
      → is_integer_field stock ≡ true
      → (t : Session) × All (λ (row : InventoryTransaction). row.product ≢ p.id) t.transactions
        × (((is_returned p.id s ≡ true) × (reset env stock p s ≡ (raised protected_error, t)))
            ⊎ ((is_returned p.id s ≡ false)
                × (reset env stock p s ≡ (ok tt, t))
                × (env.orm.products.get p.id t.products ≡ some (restock env stock p))
                × (stock ≢ pos 0 → ¬ IsBalanced env t.products t.transactions)))
  unfolding reset
  reset-unaccounted stock p s found fits =
      let (t, products, gone, none_left, ends) = clear-Ends p.id s in
      let rows = All-false p.id t.transactions none_left in
      elim ends [
        | inl (has, refused) ↦ (t, rows, inl (has, rw refused refl))
        | inr (free, cleared) ↦ (
          record t {
            db = record t.db {
              products = env.orm.products.update p.id (restock env stock) t.products;
            };
          },
          rows,
          inr (
            free,
            rw (cleared, fits) refl,
            restocked t products,
            λ some_stock balanced.
                some_stock (balanced p.id (restock env stock p) (restocked t products) ∙ gone),
          ),
        )
      ]
    where
      restocked :
          (t : Session)
          → t.products ≡ s.products
          → env.orm.products.get p.id (env.orm.products.update p.id (restock env stock) t.products)
            ≡ some (restock env stock p)
      restocked t same =
          env.orm.products.get-update p.id (restock env stock) t.products p.id (λ r. refl)
          ∙ rw (==_refl p.id, same, found) refl
