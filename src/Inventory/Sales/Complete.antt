-- ===== src/Inventory/Sales/Complete.antt =====
-- `SalesOrderViewSet.complete` and `SalesOrderViewSet.invoice` of apps/inventory/views.py. The flag
-- `INVENTORY_LOCKING_ENABLED` decides only whether concurrent requests wait, so it does not show in
-- one request's steps.
use inventra.Prelude.{
  ℕ, ◌^◌, ◌/◌, Bool, not, ◌&&◌, false, none, some, List, [], ◌∷◌, ◌==◌, ◌⊎◌, inl, inr,
  if◌then◌else◌,
}
use inventra.Prelude.Int.{◌-ℤ◌, ltb_ℤ}
use inventra.Accounts.Models.{User}
use inventra.Catalog.Models.{Product}
use inventra.Notifications.Models.{sale_completed, has_been_completed}
use inventra.Notifications.Services.{notify, check_and_notify_stock}
use inventra.Inventory.Models.{SalesOrder, SalesOrderItem, SalesOrderStatus, completed, sale}
use inventra.Inventory.Stock.{set_stock, get_product, save_stock, create_transaction}
use inventra.Inventory.Requests.{Query, get_object, exists, when_given, is_given}
use inventra.Inventory.Sales.{is_created, items_of, serialize, get_sales_order, get_queryset}
use inventra.Http.{
  Response, respond, detail, insufficient_stock, already_completed, invoice_not_available,
  task_data,
}
use inventra.Session.{
  Action, pure, gets, raise_if, modify, for_each, on_commit, bump_inventory, generate_invoice,
  integrity_error, ◌>>=◌, ◌>>◌,
}
use inventra.Django.Env.{Env, draw}

-- the first ten of the 32 hexadecimal digits of an identifier
unfoldable pub invoice_digits : ℕ → ℕ
invoice_digits uuid = uuid / 2 ^ 88

-- another order than the given one has the number
abbrev pub has_invoice : ℕ → ℕ → SalesOrder → Bool
has_invoice so digits r =
    not (r.id == so) && elim r.invoice_number [ none ↦ false | some d ↦ d == digits ]

abbrev pub add_line :
    SalesOrderItem × Product
    → Response ⊎ List (SalesOrderItem × Product)
    → Response ⊎ List (SalesOrderItem × Product)
add_line line (inl response) = inl response
add_line line (inr lines) = inr (line ∷ lines)

module _ (env : Env) where
  -- `list(so.items.order_by("product_id"))`
  unfoldable pub ordered_items : ℕ → List SalesOrderItem → List SalesOrderItem
  unfolding items_of
  ordered_items so rows =
      env.orm.sales_order_items.order_by (λ (r : SalesOrderItem). r.product) (items_of env so rows)

  -- the loop that checks the stock of every line: the first refusal, or `products_by_item` as the
  -- list of the lines (whose identifiers are distinct), each with the product as it was read
  unfoldable pub check_items :
      List SalesOrderItem → Action (Response ⊎ List (SalesOrderItem × Product))
  unfolding get_product
  check_items [] = pure (inr [])
  check_items (item ∷ items) =
      let rest = check_items items in
      do
        product ← get_product env item.product
        if ltb_ℤ product.current_stock item.quantity
            then pure (
                inl (
                  respond 409
                    (detail (insufficient_stock product.name product.current_stock item.quantity))))
            else (do lines ← rest; pure (add_line (item, product) lines))

  -- one round of the second loop
  unfoldable pub deduct_item : User → ℕ → SalesOrderItem × Product → Action Unit
  unfolding save_stock create_transaction check_and_notify_stock
  deduct_item user so (item, found) = do
    let product = set_stock (found.current_stock -ℤ item.quantity) found
    save_stock env product
    create_transaction env product item.quantity sale (some so) none user
    check_and_notify_stock env product

  -- what `complete` does after its loops; `invoice_number` is unique
  unfoldable pub finish_complete : SalesOrder → Action (Response ⊎ ℕ)
  unfolding notify draw invoice_digits exists
  finish_complete so = do
    uuid ← draw env
    now ← gets (λ s. s.now)
    let digits = invoice_digits uuid
    taken ← gets (λ s.
        exists env.orm.sales_orders (λ (r : SalesOrder). has_invoice so.id digits r) s.sales_orders)
    raise_if taken integrity_error
    modify λ db. record db {
      sales_orders =
          env.orm.sales_orders.update so.id
            (λ r. record r {
              status = completed;
              invoice_number = some digits;
              invoiced_at = some now;
            })
            db.sales_orders;
    }
    when_given so.created_by
        (λ user_id. notify env user_id sale_completed (has_been_completed so.id) (some so.id))
    on_commit bump_inventory
    pure (inr so.id)

  unfoldable pub deduct_items :
      User → SalesOrder → Response ⊎ List (SalesOrderItem × Product) → Action (Response ⊎ ℕ)
  unfolding deduct_item for_each finish_complete
  deduct_items user so (inl response) = pure (inl response)
  deduct_items user so (inr lines) = do for_each (deduct_item user so.id) lines; finish_complete so

  -- the body of `with transaction.atomic():` in `complete`, without the logging
  unfoldable pub complete_block : User → ℕ → Action (Response ⊎ ℕ)
  unfolding get_sales_order ordered_items check_items deduct_items
  complete_block user pk = do
    so ← get_sales_order env pk
    if is_created so.status
        then (do
          items ← gets (λ s. ordered_items so.id s.sales_order_items)
          checked ← check_items items
          deduct_items user so checked)
        else pure (inl (respond 409 (detail already_completed)))

  unfoldable pub after_complete : Response ⊎ ℕ → Action Response
  unfolding get_sales_order serialize
  after_complete (inl response) = pure response
  after_complete (inr so) = do so' ← get_sales_order env so; serialize env 200 so'

  unfoldable pub complete : User → ℕ → Action Response
  unfolding complete_block after_complete
  complete user pk = do
    done ← env.atomic (Response ⊎ ℕ) (complete_block user pk)
    after_complete done

  -- `invoice`: queues the task once the (empty) transaction commits
  unfoldable pub invoice : Query SalesOrderStatus → ℕ → Action Response
  unfolding get_queryset get_object draw
  invoice q pk = do
    visible ← gets (λ s. get_queryset env q s.sales_orders)
    so ← get_object env.orm.sales_orders visible pk
    if is_created so.status
        then pure (respond 404 (detail invoice_not_available))
        else if is_given so.invoice_number
        then (do
          task_id ← draw env
          env.atomic Unit (on_commit (generate_invoice so.id task_id))
          pure (respond 202 (task_data task_id)))
        else pure (respond 404 (detail invoice_not_available))
