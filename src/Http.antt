-- ===== src/Http.antt =====
-- The responses of the handlers: a status code and a body. A body is what a read serializer renders
-- (the row, with an order's lines), or a `detail` with the values that its text is filled with.
use inventra.Prelude.{ℕ, String, Bool, List}
use inventra.Prelude.Int.{ℤ}
use inventra.Accounts.Models.{RoleName, User}
use inventra.Catalog.Models.{Category, Supplier, Product}
use inventra.Notifications.Models.{Notification}
use inventra.Inventory.Models.{
  PurchaseOrder, PurchaseOrderItem, SalesOrder, SalesOrderItem, InventoryTransaction, Return,
}

-- `UserReadSerializer`
pub record UserRead : Type 0 where
  pub id : ℕ
  pub email : String
  pub full_name : String
  pub role : RoleName
  pub is_active : Bool
  pub created_at : ℕ

abbrev pub read_user : User → UserRead
read_user user = record {
  id = user.id;
  email = user.email;
  full_name = user.full_name;
  role = user.role;
  is_active = user.is_active;
  created_at = user.created_at;
}

pub data Detail : Type 0 where
  purchase_order_not_modifiable : Detail
  already_received : Detail
  sales_order_not_modifiable : Detail
  already_completed : Detail
  -- "Insufficient stock for '{name}': available {stock}, requested {quantity}"
  insufficient_stock : String → ℤ → ℤ → Detail
  invoice_not_available : Detail
  not_completed : Detail
  not_part_of_order : Detail
  -- "Return quantity exceeds remaining returnable quantity ({remaining})"
  exceeds_remaining : ℤ → Detail
  already_approved : Detail
  product_not_found : Detail
  -- what a permission check that fails answers
  not_authenticated : Detail
  permission_denied : Detail
  -- "Cannot write off {quantity} units - only {stock} in stock"
  cannot_write_off : ℤ → ℤ → Detail

pub data Body : Type 0 where
  detail : Detail → Body
  purchase_order_data : PurchaseOrder → List PurchaseOrderItem → Body
  sales_order_data : SalesOrder → List SalesOrderItem → Body
  return_data : Return → Body
  transaction_data : InventoryTransaction → Body
  -- the identifier of the task that was queued
  task_data : ℕ → Body
  user_data : UserRead → Body
  -- the serializers of the catalog
  product_data : Product → Body
  category_data : Category → Body
  supplier_data : Supplier → Body
  -- `NotificationSerializer`
  notification_data : Notification → Body
  no_content : Body

pub record Response : Type 0 where
  pub status : ℕ
  pub body : Body

abbrev pub respond : ℕ → Body → Response
respond status body = record { status = status; body = body }
