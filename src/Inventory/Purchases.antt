-- ===== src/Inventory/Purchases.antt =====
-- `PurchaseOrderViewSet` of apps/inventory/views.py with `PurchaseOrderWriteSerializer`.
pub mod Receive
pub mod Replay
use inventra.Prelude.{
  ℕ, Bool, true, false, not, ◌&&◌, ◌||◌, Option, none, some, List, [], ◌∷◌, map, ◌==◌, ◌⊎◌, inl,
  inr, if◌then◌else◌,
}
use inventra.Prelude.Int.{ℤ, pos, ◌+ℤ◌, leb_ℤ}
use inventra.Accounts.Models.{User}
use inventra.Notifications.Models.{purchase_completed, has_been_received}
use inventra.Notifications.Services.{notify, check_and_notify_stock}
use inventra.Inventory.Models.{
  PurchaseOrder, PurchaseOrderItem, PurchaseOrderStatus, ordered, received, purchase,
}
use inventra.Inventory.Stock.{
  is_positive_integer_field, set_stock, get_product, save_stock, create_transaction,
}
use inventra.Inventory.Requests.{
  Query, filter_date_range, get_object, every, when_given, is_given, is_price, validate_supplier_id,
  validate_items, given, is_valid_if_given,
}
use inventra.Http.{
  Response, respond, detail, purchase_order_not_modifiable, already_received, purchase_order_data,
}
use inventra.Session.{
  Action, pure, gets, or_raise, raise_unless, modify, for_each, collect, on_commit, bump_inventory,
  does_not_exist, validation_error, key_error, data_error, ◌>>=◌, ◌>>◌,
}
use inventra.Django.Env.{Env, draw}

-- a line of `request.data`; `none` is an absent field
pub record PurchaseItemInput : Type 0 where
  pub product_id : Option ℕ
  pub quantity : Option ℤ
  pub unit_cost : Option ℤ

pub record PurchaseOrderInput : Type 0 where
  pub supplier_id : Option ℕ
  pub items : Option (List PurchaseItemInput)

abbrev pub is_ordered : PurchaseOrderStatus → Bool
is_ordered ordered = true
is_ordered received = false

module _ (env : Env) where
  -- the nested serializer is `partial` when the whole is, and then takes a line that lacks fields
  unfoldable pub is_valid_item : Bool → PurchaseItemInput → Bool
  unfolding is_price
  is_valid_item partial item =
      (partial || (is_given item.product_id && (is_given item.quantity && is_given item.unit_cost)))
      && (is_valid_if_given (leb_ℤ (pos 1)) item.quantity
          && is_valid_if_given is_price item.unit_cost)

  -- `validate_items` asks valid lines for `item["product_id"]`, and a `KeyError` there comes before
  -- the errors of the other fields
  abbrev pub has_ids : Bool → List PurchaseItemInput → Bool
  has_ids valid items = not valid || every (λ (i : PurchaseItemInput). is_given i.product_id) items

  -- `PurchaseOrderWriteSerializer(data=..., partial=...).is_valid(raise_exception=True)`
  unfoldable pub is_valid : Bool → PurchaseOrderInput → Action Unit
  unfolding is_valid_item validate_supplier_id validate_items
  is_valid partial input = do
    when_given input.items
        (λ items. raise_unless (has_ids (every (is_valid_item partial) items) items) key_error)
    raise_unless (partial || (is_given input.supplier_id && is_given input.items)) validation_error
    when_given input.items
        (λ items. raise_unless (every (is_valid_item partial) items) validation_error)
    when_given input.supplier_id (validate_supplier_id env)
    when_given input.items
        (λ items. validate_items env (given (map (λ (i : PurchaseItemInput). i.product_id) items)))

  unfoldable pub new_item : ℕ → PurchaseItemInput → Action PurchaseOrderItem
  unfolding draw
  new_item po item = do
    product_id ← or_raise item.product_id key_error
    quantity ← or_raise item.quantity key_error
    unit_cost ← or_raise item.unit_cost key_error
    id ← draw env
    now ← gets (λ s. s.now)
    pure (record {
      id = id;
      purchase_order = po;
      product = product_id;
      quantity = quantity;
      unit_cost = unit_cost;
      created_at = now;
    })

  -- `PurchaseOrderItem.objects.bulk_create([... for item in items])`
  unfoldable pub create_items : ℕ → List PurchaseItemInput → Action Unit
  unfolding new_item collect
  create_items po items = do
    rows ← collect (new_item po) items
    raise_unless (every (λ (r : PurchaseOrderItem). is_positive_integer_field r.quantity) rows)
        data_error
    modify λ db. record db {
      purchase_order_items = env.orm.purchase_order_items.bulk_create rows db.purchase_order_items;
    }

  -- `po.items.all()`
  unfoldable pub items_of : ℕ → List PurchaseOrderItem → List PurchaseOrderItem
  items_of po =
      env.orm.purchase_order_items.filter (λ (r : PurchaseOrderItem). r.purchase_order == po)

  -- `Response(PurchaseOrderReadSerializer(po).data, status=...)`
  unfoldable pub serialize : ℕ → PurchaseOrder → Action Response
  unfolding items_of
  serialize status po = do
    items ← gets (λ s. items_of po.id s.purchase_order_items)
    pure (respond status (purchase_order_data po items))

  -- `po.refresh_from_db()`
  unfoldable pub refresh_from_db : ℕ → Action PurchaseOrder
  refresh_from_db pk = do
    found ← gets (λ s. env.orm.purchase_orders.get pk s.purchase_orders)
    or_raise found does_not_exist

  unfoldable pub create : User → PurchaseOrderInput → Action Response
  unfolding is_valid create_items serialize draw
  create user input = do
    is_valid false input
    supplier_id ← or_raise input.supplier_id key_error
    items ← or_raise input.items key_error
    po ← env.atomic PurchaseOrder (do
      id ← draw env
      now ← gets (λ s. s.now)
      let po : PurchaseOrder = record {
        id = id;
        supplier = supplier_id;
        status = ordered;
        received_at = none;
        created_at = now;
        updated_at = now;
        created_by = some user.id;
      }
      modify
          λ db. record db { purchase_orders = env.orm.purchase_orders.insert po db.purchase_orders }
      create_items id items
      pure po)
    serialize 201 po

  -- what `update` writes inside its transaction
  unfoldable pub write : ℕ → PurchaseOrderInput → Action Unit
  unfolding create_items
  write po input = do
    when_given input.supplier_id (λ supplier_id. modify λ db. record db {
      purchase_orders =
          env.orm.purchase_orders.update po (λ r. record r { supplier = supplier_id })
            db.purchase_orders;
    })
    when_given input.items (λ items. do
      modify λ db. record db {
        purchase_order_items =
            env.orm.purchase_order_items.delete (λ (r : PurchaseOrderItem). r.purchase_order == po)
              db.purchase_order_items;
      }
      create_items po items)

  abbrev is_status : Option PurchaseOrderStatus → PurchaseOrder → Bool
  is_status none po = true
  is_status (some ordered) po = is_ordered po.status
  is_status (some received) po = not (is_ordered po.status)

  -- `get_queryset()` with the filter on `status`
  unfoldable pub get_queryset : Query PurchaseOrderStatus → List PurchaseOrder → List PurchaseOrder
  unfolding filter_date_range
  get_queryset q rows =
      env.orm.purchase_orders.filter (is_status q.status)
        (filter_date_range env.orm.purchase_orders (λ (r : PurchaseOrder). r.created_at) q rows)

  -- `update`, and `partial_update` with `partial` set
  unfoldable pub update :
      Query PurchaseOrderStatus → Bool → ℕ → PurchaseOrderInput → Action Response
  unfolding get_queryset get_object is_valid write refresh_from_db serialize
  update q partial pk input = do
    visible ← gets (λ s. get_queryset q s.purchase_orders)
    po ← get_object env.orm.purchase_orders visible pk
    if is_ordered po.status
        then (do
          is_valid partial input
          env.atomic Unit (write po.id input)
          po' ← refresh_from_db po.id
          serialize 200 po')
        else pure (respond 409 (detail purchase_order_not_modifiable))

  -- one round of the loop of `receive`
  unfoldable pub receive_item : User → ℕ → PurchaseOrderItem → Action Unit
  unfolding get_product save_stock create_transaction check_and_notify_stock
  receive_item user po item = do
    found ← get_product env item.product
    let product = set_stock (found.current_stock +ℤ item.quantity) found
    save_stock env product
    create_transaction env product item.quantity purchase (some po) none user
    check_and_notify_stock env product

  -- `list(po.items.order_by("product_id"))`
  unfoldable pub ordered_items : ℕ → List PurchaseOrderItem → List PurchaseOrderItem
  unfolding items_of
  ordered_items po rows =
      env.orm.purchase_order_items.order_by (λ (r : PurchaseOrderItem). r.product)
        (items_of po rows)

  -- what `receive` does after its loop: the new status, the notification and the callback
  unfoldable pub finish_receive : PurchaseOrder → Action (Response ⊎ ℕ)
  unfolding notify
  finish_receive po = do
    now ← gets (λ s. s.now)
    modify λ db. record db {
      purchase_orders =
          env.orm.purchase_orders.update po.id
            (λ r. record r { status = received; received_at = some now }) db.purchase_orders;
    }
    when_given po.created_by
        (λ user_id. notify env user_id purchase_completed (has_been_received po.id) (some po.id))
    on_commit bump_inventory
    pure (inr po.id)

  -- the body of `with transaction.atomic():` in `receive`, without the logging
  unfoldable pub receive_block : User → ℕ → Action (Response ⊎ ℕ)
  unfolding ordered_items receive_item for_each finish_receive refresh_from_db
  receive_block user pk = do
    po ← refresh_from_db pk
    if is_ordered po.status
        then (do
          items ← gets (λ s. ordered_items po.id s.purchase_order_items)
          for_each (receive_item user po.id) items
          finish_receive po)
        else pure (inl (respond 409 (detail already_received)))

  unfoldable pub after_receive : Response ⊎ ℕ → Action Response
  unfolding refresh_from_db serialize
  after_receive (inl response) = pure response
  after_receive (inr po) = do po' ← refresh_from_db po; serialize 200 po'

  unfoldable pub receive : User → ℕ → Action Response
  unfolding receive_block after_receive
  receive user pk = do done ← env.atomic (Response ⊎ ℕ) (receive_block user pk); after_receive done
