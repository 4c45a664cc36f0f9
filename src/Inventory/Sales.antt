-- ===== src/Inventory/Sales.antt =====
-- `SalesOrderViewSet` of apps/inventory/views.py: creation and update, with
-- `SalesOrderWriteSerializer`. `complete` and `invoice` are in the child `Complete`.
pub mod Complete
pub mod Lines
pub mod Repeated
pub mod Oversell
pub mod Balance
pub mod Replay
pub mod Sold
pub mod Fulfilled
use inventra.Prelude.{
  ℕ, String, Bool, true, false, not, ◌&&◌, ◌||◌, Option, none, some, List, [], ◌∷◌, map, ◌==◌, leb,
  if◌then◌else◌,
}
use Prim.Native.String.{count}
use inventra.Prelude.Int.{ℤ, pos, leb_ℤ}
use inventra.Accounts.Models.{User}
use inventra.Catalog.Models.{Product}
use inventra.Inventory.Models.{SalesOrder, SalesOrderItem, SalesOrderStatus, created, completed}
use inventra.Inventory.Stock.{is_positive_integer_field}
use inventra.Inventory.Requests.{
  Query, filter_date_range, get_object, every, contains, when_given, is_given, validate_items,
  given, is_valid_if_given,
}
use inventra.Http.{Response, respond, detail, sales_order_not_modifiable, sales_order_data}
use inventra.Session.{
  Action, pure, gets, or_raise, raise_unless, modify, collect, does_not_exist, validation_error,
  key_error, data_error, ◌>>=◌, ◌>>◌,
}
use inventra.Django.Env.{Env, draw}

-- a line of `request.data`; `none` is an absent field
pub record SalesItemInput : Type 0 where
  pub product_id : Option ℕ
  pub quantity : Option ℤ

-- `request.data`; `none` is an absent field, and `some none` is null
pub record SalesOrderInput : Type 0 where
  pub customer_name : Option (Option String)
  pub customer_phone : Option (Option String)
  pub items : Option (List SalesItemInput)

abbrev pub is_created : SalesOrderStatus → Bool
is_created created = true
is_created completed = false

abbrev pub get_or_null : Option (Option String) → Option String
get_or_null none = none
get_or_null (some v) = v

-- `products[k]` for `products = {p.id: p for p in ...}`
abbrev pub product_of : ℕ → List Product → Option Product
product_of k [] = none
product_of k (p ∷ ps) = if p.id == k then some p else product_of k ps

-- the nested serializer is `partial` when the whole is, and then takes a line that lacks fields
abbrev pub is_valid_item : Bool → SalesItemInput → Bool
is_valid_item partial item =
    (partial || (is_given item.product_id && is_given item.quantity))
    && is_valid_if_given (leb_ℤ (pos 1)) item.quantity

-- `validate_items` asks valid lines for `item["product_id"]`, and a `KeyError` there comes before
-- the errors of the other fields
abbrev pub has_ids : Bool → List SalesItemInput → Bool
has_ids valid items = not valid || every (λ (i : SalesItemInput). is_given i.product_id) items

-- `CharField(required=False, allow_null=True)`, on the text as the serializer has trimmed it
abbrev pub is_not_blank : Option (Option String) → Bool
is_not_blank none = true
is_not_blank (some none) = true
is_not_blank (some (some text)) = leb 1 (count text)

module _ (env : Env) where
  -- `SalesOrderWriteSerializer(data=..., partial=...).is_valid(raise_exception=True)`
  unfoldable pub is_valid : Bool → SalesOrderInput → Action Unit
  unfolding validate_items
  is_valid partial input = do
    when_given input.items
        (λ items. raise_unless (has_ids (every (is_valid_item partial) items) items) key_error)
    raise_unless (partial || is_given input.items) validation_error
    raise_unless (is_not_blank input.customer_name && is_not_blank input.customer_phone)
        validation_error
    when_given input.items
        (λ items. raise_unless (every (is_valid_item partial) items) validation_error)
    when_given input.items
        (λ items. validate_items env (given (map (λ (i : SalesItemInput). i.product_id) items)))

  -- one line, with the price of the product at this moment
  unfoldable pub new_item : List Product → ℕ → SalesItemInput → Action SalesOrderItem
  unfolding draw
  new_item products so item = do
    product_id ← or_raise item.product_id key_error
    quantity ← or_raise item.quantity key_error
    product ← or_raise (product_of product_id products) key_error
    id ← draw env
    now ← gets (λ s. s.now)
    pure (record {
      id = id;
      sales_order = so;
      product = product_id;
      quantity = quantity;
      unit_price = product.selling_price;
      created_at = now;
    })

  unfoldable pub create_items : ℕ → List SalesItemInput → Action Unit
  unfolding new_item collect
  create_items so items = do
    let product_ids = given (map (λ (i : SalesItemInput). i.product_id) items)
    products ←
        gets (λ s. env.orm.products.filter (λ (p : Product). contains p.id product_ids) s.products)
    rows ← collect (new_item products so) items
    raise_unless (every (λ (r : SalesOrderItem). is_positive_integer_field r.quantity) rows)
        data_error
    modify λ db. record db {
      sales_order_items = env.orm.sales_order_items.bulk_create rows db.sales_order_items;
    }

  -- `so.items.all()`
  unfoldable pub items_of : ℕ → List SalesOrderItem → List SalesOrderItem
  items_of so = env.orm.sales_order_items.filter (λ (r : SalesOrderItem). r.sales_order == so)

  unfoldable pub serialize : ℕ → SalesOrder → Action Response
  unfolding items_of
  serialize status so = do
    items ← gets (λ s. items_of so.id s.sales_order_items)
    pure (respond status (sales_order_data so items))

  -- `SalesOrder.objects.get(pk=pk)`, also with `select_for_update()`
  unfoldable pub get_sales_order : ℕ → Action SalesOrder
  get_sales_order pk = do
    found ← gets (λ s. env.orm.sales_orders.get pk s.sales_orders)
    or_raise found does_not_exist

  unfoldable pub create : User → SalesOrderInput → Action Response
  unfolding is_valid create_items serialize draw
  create user input = do
    is_valid false input
    items ← or_raise input.items key_error
    so ← env.atomic SalesOrder (do
      id ← draw env
      now ← gets (λ s. s.now)
      let so : SalesOrder = record {
        id = id;
        status = created;
        customer_name = get_or_null input.customer_name;
        customer_phone = get_or_null input.customer_phone;
        invoice_number = none;
        invoiced_at = none;
        created_at = now;
        updated_at = now;
        created_by = some user.id;
      }
      modify λ db. record db { sales_orders = env.orm.sales_orders.insert so db.sales_orders }
      create_items id items
      pure so)
    serialize 201 so

  -- `so.save()` after the assignments of `update`: all columns of the instance `so`
  abbrev pub assigned : SalesOrderInput → ℕ → SalesOrder → SalesOrder
  assigned input now so = record so {
    customer_name = elim input.customer_name [ none ↦ so.customer_name | some v ↦ v ];
    customer_phone = elim input.customer_phone [ none ↦ so.customer_phone | some v ↦ v ];
    updated_at = now;
  }

  -- what `update` writes inside its transaction
  unfoldable pub write : SalesOrder → SalesOrderInput → Action Unit
  unfolding create_items
  write so input = do
    now ← gets (λ s. s.now)
    modify λ db. record db {
      sales_orders =
          env.orm.sales_orders.update so.id (λ r. record (assigned input now so) { id = r.id })
            db.sales_orders;
    }
    when_given input.items (λ items. do
      modify λ db. record db {
        sales_order_items =
            env.orm.sales_order_items.delete (λ (r : SalesOrderItem). r.sales_order == so.id)
              db.sales_order_items;
      }
      create_items so.id items)

  abbrev is_status : Option SalesOrderStatus → SalesOrder → Bool
  is_status none so = true
  is_status (some created) so = is_created so.status
  is_status (some completed) so = not (is_created so.status)

  unfoldable pub get_queryset : Query SalesOrderStatus → List SalesOrder → List SalesOrder
  unfolding filter_date_range
  get_queryset q rows =
      env.orm.sales_orders.filter (is_status q.status)
        (filter_date_range env.orm.sales_orders (λ (r : SalesOrder). r.created_at) q rows)

  -- `update`, and `partial_update` with `partial` set
  unfoldable pub update : Query SalesOrderStatus → Bool → ℕ → SalesOrderInput → Action Response
  unfolding get_queryset get_object is_valid write get_sales_order serialize
  update q partial pk input = do
    visible ← gets (λ s. get_queryset q s.sales_orders)
    so ← get_object env.orm.sales_orders visible pk
    if is_created so.status
        then (do
          is_valid partial input
          env.atomic Unit (write so input)
          so' ← get_sales_order so.id
          serialize 200 so')
        else pure (respond 409 (detail sales_order_not_modifiable))
