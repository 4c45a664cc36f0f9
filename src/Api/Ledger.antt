-- ===== src/Api/Ledger.antt =====
-- The ledger after any requests.
use inventra.Prelude.{ℕ, refl, sym, subst, List, Option-cases, inl, inr, false, arith}
use inventra.Catalog.Models.{Product}
use inventra.Inventory.Models.{InventoryTransaction}
use inventra.Inventory.Ledger.{IsBalanced}
use inventra.Inventory.Purchases.Receive.{receive-IsBalanced}
use inventra.Inventory.Sales.Balance.{complete-IsBalanced}
use inventra.Inventory.Returns.Approve.{approve-IsBalanced}
use inventra.Catalog.StockEdits.{update_product-IsBalanced}
use inventra.Inventory.Tasks.Reconcile.{reconcile_ledger-exact}
use inventra.Inventory.Damage.Balance.{post-IsBalanced}
use inventra.Catalog.Products.{active_products, destroy_product}
use inventra.Api.Orders.{
  same_books, purchase-create-Keeps, purchase-update-Keeps, sale-create-Keeps, sale-update-Keeps,
  return-create-Keeps, return-destroy-Keeps,
}
use inventra.Api.Requests.{
  Step, purchase_create, purchase_update, purchase_receive, sale_create, sale_update, sale_complete,
  return_create, return_approve, return_destroy, damage, product_update, product_destroy, reconcile,
  tick, Steps, stop, next,
}
use inventra.Inventory.Purchases as Purchases
use inventra.Inventory.Sales as Sales
use inventra.Inventory.Returns as Returns
use inventra.Session.{Session, Action}
use inventra.Session.Keeps.{Keeps}
use inventra.Django.Env.{Env}

module _ (env : Env) where
  abbrev BooksBalance : List Product × List InventoryTransaction → Type 0
  BooksBalance (products, transactions) = IsBalanced env products transactions

  -- the books are as they were
  same :
      {A : Type 0} (m : Action A) (s : Session)
      → Keeps same_books m
      → IsBalanced env s.products s.transactions
      → let (_, t) = m s in IsBalanced env t.products t.transactions
  same m s keeps h = subst BooksBalance (sym (keeps s)) h

  -- a product that is hidden keeps its stock
  hidden-IsBalanced :
      (j : ℕ) (products : List Product) (ts : List InventoryTransaction)
      → IsBalanced env products ts
      → IsBalanced env (env.orm.products.update j (λ r. record r { is_active = false }) products) ts
  hidden-IsBalanced j products ts h k q e =
      let law =
        env.orm.products.get-update j (λ r. record r { is_active = false }) products k
          (λ r. refl) in
      elim (Option-cases (env.orm.products.get k products)) [
        | inl none_there ↦ ground (arith, law)
        | inr (p, there) ↦ let was = h k p there in ground (arith, law)
      ]

  destroy_product-IsBalanced :
      (pk : ℕ) (s : Session)
      → IsBalanced env s.products s.transactions
      → let (_, t) = destroy_product env pk s in IsBalanced env t.products t.transactions
  unfolding destroy_product
  destroy_product-IsBalanced pk s h =
      elim (Option-cases (env.orm.products.get pk (active_products env s.products))) [
        | inl e ↦ rw e h
        | inr (p, e) ↦ rw e (hidden-IsBalanced p.id s.products s.transactions h)
      ]

  request-IsBalanced :
      (s t : Session)
      → Step env s t
      → IsBalanced env s.products s.transactions
      → IsBalanced env t.products t.transactions
  request-IsBalanced _ _ (purchase_create user input s) h =
      same (Purchases.create env user input) s (purchase-create-Keeps env input user) h
  request-IsBalanced _ _ (purchase_update q partial pk input s) h =
      same (Purchases.update env q partial pk input) s
        (purchase-update-Keeps env input q partial pk) h
  request-IsBalanced _ _ (purchase_receive user pk s) h = receive-IsBalanced env user pk s h
  request-IsBalanced _ _ (sale_create user input s) h =
      same (Sales.create env user input) s (sale-create-Keeps env input user) h
  request-IsBalanced _ _ (sale_update q partial pk input s) h =
      same (Sales.update env q partial pk input) s (sale-update-Keeps env input q partial pk) h
  request-IsBalanced _ _ (sale_complete user pk s distinct) h =
      complete-IsBalanced env user pk s distinct h
  request-IsBalanced _ _ (return_create user input s) h =
      same (Returns.create env user input) s (return-create-Keeps env user input) h
  request-IsBalanced _ _ (return_approve user pk s) h = approve-IsBalanced env user pk s h
  request-IsBalanced _ _ (return_destroy status pk s) h =
      same (Returns.destroy env status pk) s (return-destroy-Keeps env status pk) h
  request-IsBalanced _ _ (damage user input s) h = post-IsBalanced env user input s h
  request-IsBalanced _ _ (product_update partial pk input s silent keyed) h =
      update_product-IsBalanced env partial pk input s silent keyed h
  request-IsBalanced _ _ (product_destroy pk s) h = destroy_product-IsBalanced pk s h
  request-IsBalanced _ _ (reconcile s) h = let (n, d, e) = reconcile_ledger-exact env s in rw e h
  request-IsBalanced _ _ (tick now s) h = h

  -- Any requests, one after another, keep every product's stock equal to the sum of its ledger
  -- rows: creations and updates of orders, receipts, completions of orders whose lines are of
  -- different products, returns, write-offs, updates of products that do not name the stock in a
  -- table with unique primary keys, deletions of products, and runs of the nightly task.
  pub steps-IsBalanced :
      (s t : Session)
      → Steps env s t
      → IsBalanced env s.products s.transactions
      → IsBalanced env t.products t.transactions
  steps-IsBalanced _ _ (stop s) h = h
  steps-IsBalanced _ _ (next {s} {t} {u} first rest) h =
      steps-IsBalanced t u rest (request-IsBalanced s t first h)
