-- ===== src/Api/AppendOnly.antt =====
-- No request changes or removes a row of the ledger.
use inventra.Prelude.{ℕ, sym, ◌⊎◌, inl, inr, Bool, Option, none, some, List, [], ◌∷◌, subst}
use inventra.Accounts.Models.{User}
use inventra.Catalog.Models.{Product}
use inventra.Inventory.Models.{
  PurchaseOrder, PurchaseOrderItem, SalesOrder, SalesOrderItem, InventoryTransaction,
}
use inventra.Inventory.Purchases as Purchases
use inventra.Inventory.Sales as Sales
use inventra.Inventory.Sales.Complete as Complete
use inventra.Inventory.Returns as Returns
use inventra.Inventory.Damage as Damage
use inventra.Inventory.Damage.{DamageInput}
use inventra.Inventory.Tasks.{reconcile_ledger}
use inventra.Catalog.Products.{perform_destroy, destroy_product}
use inventra.Catalog.Editing.{ProductInput, create_product, update_product, save_product}
use inventra.Http.{Response}
use inventra.Session.{Session, Action}
use inventra.Session.Keeps.{Keeps, runs}
use inventra.Api.Orders.{
  same_books, purchase-create-Keeps, purchase-update-Keeps, sale-create-Keeps, sale-update-Keeps,
  return-create-Keeps, return-destroy-Keeps,
}
use inventra.Api.Growth.{
  Grows, Grows-refl, Grows-trans, growing, unwritten-Keeps, raise_if-Keeps, notify-Keeps,
  notify_all-Keeps, check_and_notify_stock-Keeps, get_product-Keeps, save_stock-Keeps,
  create_transaction-Keeps,
}
use inventra.Api.Requests.{
  Step, purchase_create, purchase_update, purchase_receive, sale_create, sale_update, sale_complete,
  return_create, return_approve, return_destroy, damage, product_update, product_destroy, reconcile,
  tick, Request, Requests, usual, any_sale_complete, any_product_update, product_create, none_more,
  then_more,
}
use inventra.Django.Env.{Env, draw}

ruleset stock_rules = (
  runs, get_product-Keeps, save_stock-Keeps, create_transaction-Keeps, check_and_notify_stock-Keeps,
  notify-Keeps,
)

-- what leaves the ledger alone
books-grow : {A : Type 0} (m : Action A) → Keeps same_books m → Keeps growing m
books-grow m h s = subst (λ b. Grows s.transactions b.1) (sym (h s)) (Grows-refl s.transactions)

module _ (env : Env) where
  receive_item-Keeps :
      (user : User) (po : ℕ) (i : PurchaseOrderItem)
      → Keeps growing (Purchases.receive_item env user po i)
  unfolding Purchases.receive_item
  receive_item-Keeps user po i = search stock_rules depth 12

  finish_receive-Keeps : (po : PurchaseOrder) → Keeps growing (Purchases.finish_receive env po)
  unfolding Purchases.finish_receive
  finish_receive-Keeps po = search (stock_rules, unwritten-Keeps) depth 12

  receive_block-Keeps : (user : User) (pk : ℕ) → Keeps growing (Purchases.receive_block env user pk)
  unfolding Purchases.receive_block Purchases.refresh_from_db
  receive_block-Keeps user pk = search (runs, receive_item-Keeps, finish_receive-Keeps) depth 12

  after_receive-Keeps : (r : Response ⊎ ℕ) → Keeps growing (Purchases.after_receive env r)
  unfolding Purchases.after_receive Purchases.refresh_from_db Purchases.serialize
  after_receive-Keeps (inl response) = search runs
  after_receive-Keeps (inr po) = search runs depth 12

  receive-Keeps : (user : User) (pk : ℕ) → Keeps growing (Purchases.receive env user pk)
  unfolding Purchases.receive
  receive-Keeps user pk = search (runs, receive_block-Keeps, after_receive-Keeps)

  deduct_item-Keeps :
      (user : User) (so : ℕ) (l : SalesOrderItem × Product)
      → Keeps growing (Complete.deduct_item env user so l)
  unfolding Complete.deduct_item
  deduct_item-Keeps user so l = search stock_rules depth 12

  check_items-Keeps : (items : List SalesOrderItem) → Keeps growing (Complete.check_items env items)
  unfolding Complete.check_items
  check_items-Keeps [] = search runs
  check_items-Keeps (i ∷ items) =
      let rest = check_items-Keeps items in search (runs, get_product-Keeps, rest) depth 12

  finish_complete-Keeps : (so : SalesOrder) → Keeps growing (Complete.finish_complete env so)
  unfolding Complete.finish_complete
  finish_complete-Keeps so = search (stock_rules, unwritten-Keeps, raise_if-Keeps) depth 16

  deduct_items-Keeps :
      (user : User) (so : SalesOrder) (r : Response ⊎ List (SalesOrderItem × Product))
      → Keeps growing (Complete.deduct_items env user so r)
  unfolding Complete.deduct_items
  deduct_items-Keeps user so (inl response) = search runs
  deduct_items-Keeps user so (inr lines) = search (runs, deduct_item-Keeps, finish_complete-Keeps)

  complete_block-Keeps :
      (user : User) (pk : ℕ) → Keeps growing (Complete.complete_block env user pk)
  unfolding Complete.complete_block Sales.get_sales_order
  complete_block-Keeps user pk = search (runs, check_items-Keeps, deduct_items-Keeps) depth 12

  after_complete-Keeps : (r : Response ⊎ ℕ) → Keeps growing (Complete.after_complete env r)
  unfolding Complete.after_complete Sales.get_sales_order Sales.serialize
  after_complete-Keeps (inl response) = search runs
  after_complete-Keeps (inr so) = search runs depth 12

  complete-Keeps : (user : User) (pk : ℕ) → Keeps growing (Complete.complete env user pk)
  unfolding Complete.complete
  complete-Keeps user pk = search (runs, complete_block-Keeps, after_complete-Keeps)

  approve_block-Keeps : (user : User) (pk : ℕ) → Keeps growing (Returns.approve_block env user pk)
  unfolding Returns.approve_block Returns.get_return Returns.finish_approve
  approve_block-Keeps user pk = search (stock_rules, unwritten-Keeps) depth 16

  after_approve-Keeps : (r : Response ⊎ ℕ) → Keeps growing (Returns.after_approve env r)
  unfolding Returns.after_approve Returns.get_return
  after_approve-Keeps (inl response) = search runs
  after_approve-Keeps (inr ret) = search runs depth 12

  approve-Keeps : (user : User) (pk : ℕ) → Keeps growing (Returns.approve env user pk)
  unfolding Returns.approve
  approve-Keeps user pk = search (runs, approve_block-Keeps, after_approve-Keeps)

  write_off-Keeps :
      (user : User) (input : DamageInput) (p : Option Product)
      → Keeps growing (Damage.write_off env user input p)
  unfolding Damage.write_off Damage.deduct
  write_off-Keeps user input none = search runs
  write_off-Keeps user input (some p) = search stock_rules depth 12

  post_block-Keeps :
      (user : User) (input : DamageInput) → Keeps growing (Damage.post_block env user input)
  unfolding Damage.post_block Damage.first_active
  post_block-Keeps user input = search (runs, write_off-Keeps)

  after_post-Keeps : (r : Response ⊎ InventoryTransaction) → Keeps growing (Damage.after_post env r)
  after_post-Keeps (inl response) = search runs
  after_post-Keeps (inr txn) = search runs

  post-Keeps : (user : User) (input : DamageInput) → Keeps growing (Damage.post env user input)
  unfolding Damage.post
  post-Keeps user input = search (runs, post_block-Keeps, after_post-Keeps)

  update_product-Keeps :
      (partial : Bool) (pk : ℕ) (input : ProductInput)
      → Keeps growing (update_product env partial pk input)
  unfolding update_product save_product
  update_product-Keeps partial pk input = search (runs, unwritten-Keeps) depth 12

  create_product-Keeps : (input : ProductInput) → Keeps growing (create_product env input)
  unfolding create_product draw
  create_product-Keeps input = search (runs, unwritten-Keeps) depth 16

  destroy_product-Keeps : (pk : ℕ) → Keeps growing (destroy_product env pk)
  unfolding destroy_product perform_destroy
  destroy_product-Keeps pk = search (runs, unwritten-Keeps) depth 12

  reconcile_ledger-Keeps : Keeps growing (reconcile_ledger env)
  unfolding reconcile_ledger
  reconcile_ledger-Keeps = search (runs, notify_all-Keeps) depth 12

  request-Grows : (s t : Session) → Step env s t → Grows s.transactions t.transactions
  request-Grows _ _ (purchase_create user input s) =
      books-grow (Purchases.create env user input) (purchase-create-Keeps env input user) s
  request-Grows _ _ (purchase_update q partial pk input s) =
      books-grow (Purchases.update env q partial pk input)
        (purchase-update-Keeps env input q partial pk) s
  request-Grows _ _ (purchase_receive user pk s) = receive-Keeps user pk s
  request-Grows _ _ (sale_create user input s) =
      books-grow (Sales.create env user input) (sale-create-Keeps env input user) s
  request-Grows _ _ (sale_update q partial pk input s) =
      books-grow (Sales.update env q partial pk input) (sale-update-Keeps env input q partial pk) s
  request-Grows _ _ (sale_complete user pk s distinct) = complete-Keeps user pk s
  request-Grows _ _ (return_create user input s) =
      books-grow (Returns.create env user input) (return-create-Keeps env user input) s
  request-Grows _ _ (return_approve user pk s) = approve-Keeps user pk s
  request-Grows _ _ (return_destroy status pk s) =
      books-grow (Returns.destroy env status pk) (return-destroy-Keeps env status pk) s
  request-Grows _ _ (damage user input s) = post-Keeps user input s
  request-Grows _ _ (product_update partial pk input s silent keyed) =
      update_product-Keeps partial pk input s
  request-Grows _ _ (product_destroy pk s) = destroy_product-Keeps pk s
  request-Grows _ _ (reconcile s) = reconcile_ledger-Keeps s
  request-Grows _ _ (tick now s) = Grows-refl s.transactions

  any_request-Grows : (s t : Session) → Request env s t → Grows s.transactions t.transactions
  any_request-Grows s t (usual step) = request-Grows s t step
  any_request-Grows _ _ (any_sale_complete user pk s) = complete-Keeps user pk s
  any_request-Grows _ _ (any_product_update partial pk input s) =
      update_product-Keeps partial pk input s
  any_request-Grows _ _ (product_create input s) = create_product-Keeps input s

  -- The ledger is append-only: it counts at least as many rows of any kind as before, for every
  -- weight of rows that is not negative, after any of these requests, one after another: creations
  -- and updates of orders, receipts, completions of sales, creations, approvals and deletions of
  -- returns, write-offs, creations, updates and deletions of products, and runs of the nightly
  -- task.
  pub steps-Grows : (s t : Session) → Requests env s t → Grows s.transactions t.transactions
  steps-Grows _ _ (none_more s) = Grows-refl s.transactions
  steps-Grows _ _ (then_more {s} {t} {u} first rest) =
      Grows-trans s.transactions t.transactions u.transactions (any_request-Grows s t first)
        (steps-Grows t u rest)
