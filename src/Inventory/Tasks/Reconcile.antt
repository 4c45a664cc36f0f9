-- ===== src/Inventory/Tasks/Reconcile.antt =====
-- What `reconcile_ledger` finds.
use inventra.Prelude.{
  ℕ, ◌≡◌, ◌↔◌, refl, ap, inl, inr, Bool, true, false, ◌⊎◌, not, Bool-cases, none, some, List, [],
  ◌∷◌, map, All, length, keep, arith, fun_ext,
}
use inventra.Prelude.Int.{eqb_ℤ}
use inventra.Catalog.Models.{Product}
use inventra.Notifications.Models.{Notification, reconciliation_mismatch, found_mismatches}
use inventra.Notifications.Frame.{with_notifications, notify_admins_and_managers-IsQuiet}
use inventra.Inventory.Models.{InventoryTransaction}
use inventra.Inventory.Stock.{signed_quantity, balance}
use inventra.Inventory.Ledger.{IsBalanced}
use inventra.Inventory.Tasks.{
  Reconciliation, ledger_totals, is_mismatched, is_empty, reconcile_ledger,
}
use inventra.Django.Table.{every, total_of}
use inventra.Session.{Session, ok}
use inventra.Django.Env.{Env}

module _ (env : Env) where
  total_of-ledger_totals :
      (ts : List InventoryTransaction) (k : ℕ) → total_of k (ledger_totals env ts) ≡ balance k ts
  unfolding ledger_totals balance
  total_of-ledger_totals ts k =
      env.orm.transactions.total_of-group_sum (λ t. t.product) signed_quantity ts k

  -- the products whose stock is not the sum of their ledger rows
  abbrev pub mismatches : List Product → List InventoryTransaction → List Product
  mismatches products ts =
      keep (λ (p : Product). not (eqb_ℤ p.current_stock (balance p.id ts))) products

  is_mismatched-eq :
      (ts : List InventoryTransaction)
      → is_mismatched env (ledger_totals env ts)
        ≡ (λ p. not (eqb_ℤ p.current_stock (balance p.id ts)))
  unfolding is_mismatched
  is_mismatched-eq ts = fun_ext λ p. rw (total_of-ledger_totals ts p.id)

  abbrev pub report : List Product → List InventoryTransaction → Reconciliation
  report products ts = record {
    checked = length products;
    mismatched_count = length (mismatches products ts);
    mismatched_product_ids = map (λ (p : Product). p.id) (mismatches products ts);
  }

  -- The nightly task reports exactly the products whose stock is not the sum of their ledger rows,
  -- and it changes no table but the notifications.
  pub reconcile_ledger-exact :
      (s : Session)
      → (n : List Notification) × (d : ℕ) × (reconcile_ledger env s
          ≡ (ok (report s.products s.transactions), with_notifications s n d))
  unfolding reconcile_ledger
  reconcile_ledger-exact s =
      rw (is_mismatched-eq s.transactions)
        (elim (is_empty-cases (mismatches s.products s.transactions)) [
          | inl e ↦ (s.notifications, s.draws, rw e)
          | inr e ↦
              let (n, d, q) =
                notify_admins_and_managers-IsQuiet env reconciliation_mismatch
                  (found_mismatches (length (mismatches s.products s.transactions))) none s in
              (n, d, rw (e, q))
        ])
    where
      is_empty-cases : (l : List Product) → (is_empty l ≡ true) ⊎ (is_empty l ≡ false)
      is_empty-cases l = Bool-cases (is_empty l)

  keep-nil_iff :
      (p : Product → Bool) (l : List Product)
      → (length (keep (λ x. not (p x)) l) ≡ 0) ↔ (every p l ≡ true)
  keep-nil_iff p [] = (λ _. refl, λ _. refl)
  keep-nil_iff p (x ∷ l) =
      let (f, g) = keep-nil_iff p l in (λ h. ground (arith, f), λ h. ground (arith, g))

  every_balanced :
      (ts : List InventoryTransaction) (l : List Product)
      → All (λ (p : Product). p.current_stock ≡ balance p.id ts) l
      → every (λ (p : Product). eqb_ℤ p.current_stock (balance p.id ts)) l ≡ true
  every_balanced ts [] h = refl
  every_balanced ts (p ∷ l) h = ground (arith, every_balanced ts l h.1)

  -- the rows of the table are the products that `get` finds: primary keys are unique
  abbrev pub IsKeyed : List Product → Type 0
  IsKeyed products = All (λ (p : Product). env.orm.products.get p.id products ≡ some p) products

  All-IsBalanced :
      (ts : List InventoryTransaction) (products l : List Product)
      → IsBalanced env products ts
      → All (λ (p : Product). env.orm.products.get p.id products ≡ some p) l
      → All (λ (p : Product). p.current_stock ≡ balance p.id ts) l
  All-IsBalanced ts products [] h k = tt
  All-IsBalanced ts products (p ∷ l) h k = (h p.id p k.0, All-IsBalanced ts products l h k.1)

  -- no row is reported exactly when the ledger agrees
  mismatches-nil_iff :
      (s : Session)
      → IsKeyed s.products
      → (length (mismatches s.products s.transactions) ≡ 0)
        ↔ IsBalanced env s.products s.transactions
  mismatches-nil_iff s keyed =
      let balanced : Product → Bool = λ p. eqb_ℤ p.current_stock (balance p.id s.transactions) in
      let (f, g) = keep-nil_iff balanced s.products in
      (
        λ none_found k p found.
            let test : balanced p ≡ true =
              env.orm.products.get-every balanced k s.products p (f none_found) found in
            let key : p.id ≡ k = env.orm.products.pk-get k s.products p found in
            rw (← key) (ground (arith, test)),
        λ h. g (
            every_balanced s.transactions s.products
              (All-IsBalanced s.transactions s.products s.products h keyed)),
      )

  -- In a table with unique primary keys the nightly task returns, and the count of mismatches that
  -- it returns is zero exactly when every product's stock is the sum of its ledger rows.
  pub reconcile_ledger-clean_iff :
      (s : Session)
      → IsKeyed s.products
      → (r : Reconciliation) × ((reconcile_ledger env s).0 ≡ ok r)
        × ((r.mismatched_count ≡ 0) ↔ IsBalanced env s.products s.transactions)
  reconcile_ledger-clean_iff s keyed =
      let (n, d, e) = reconcile_ledger-exact s in
      (report s.products s.transactions, ap (λ x. x.0) e, mismatches-nil_iff s keyed)
