-- ===== src/Tests/Shop.antt =====
-- Tables of lists, transactions that settle at once, and one small shop.
use inventra.Prelude.{ℕ, ◌+◌, refl, true, none, some, [], ◌∷◌}
use inventra.Prelude.Int.{ℤ, pos}
use inventra.Accounts.Models.{User, RoleName, admin, employee}
use inventra.Accounts.Users.{Fields, RegisterInput}
use inventra.Catalog.Models.{Product}
use inventra.Inventory.Models.{
  PurchaseOrder, PurchaseOrderItem, ordered, SalesOrder, SalesOrderItem, SalesOrderStatus, created,
  completed, InventoryTransaction, TransactionType, Return, pending,
}
use inventra.Session.{Session, settle}
use inventra.Django.Rows.{rows}
use inventra.Django.Env.{Orm, Env}

abbrev pub orm : Orm
orm = record {
  users = rows (λ r. r.id);
  categories = rows (λ r. r.id);
  suppliers = rows (λ r. r.id);
  products = rows (λ r. r.id);
  purchase_orders = rows (λ r. r.id);
  purchase_order_items = rows (λ r. r.id);
  sales_orders = rows (λ r. r.id);
  sales_order_items = rows (λ r. r.id);
  transactions = rows (λ r. r.id);
  returns = rows (λ r. r.id);
  notifications = rows (λ r. r.id);
}

abbrev pub env : Env
env = record {
  orm = orm;
  uuid4 = λ n. n + 1000;
  atomic = λ A m s. settle s (m s);
  atomic_lem = λ A m s. refl;
}

abbrev pub user : ℕ → RoleName → User
user id role = record {
  id = id;
  email = "";
  full_name = "";
  password = 0;
  role = role;
  is_active = true;
  is_staff = true;
  is_superuser = true;
  created_at = 0;
  updated_at = 0;
  created_by = none;
}

abbrev pub boss : User
boss = user 1 admin

abbrev pub lamp : Product
lamp = record {
  id = 10;
  sku = "L";
  name = "lamp";
  description = none;
  cost_price = pos 500;
  selling_price = pos 900;
  current_stock = pos 5;
  low_stock_threshold = pos 3;
  category = 1;
  supplier = 1;
  is_active = true;
  created_at = 0;
  updated_at = 0;
  created_by = none;
}

abbrev pub purchase_order : PurchaseOrder
purchase_order = record {
  id = 20;
  supplier = 1;
  status = ordered;
  received_at = none;
  created_at = 0;
  updated_at = 0;
  created_by = some 1;
}

abbrev pub purchase_item : PurchaseOrderItem
purchase_item = record {
  id = 21;
  purchase_order = 20;
  product = 10;
  quantity = pos 4;
  unit_cost = pos 500;
  created_at = 0;
}

abbrev pub sales_order : ℕ → SalesOrderStatus → SalesOrder
sales_order id status = record {
  id = id;
  status = status;
  customer_name = none;
  customer_phone = none;
  invoice_number = none;
  invoiced_at = none;
  created_at = 0;
  updated_at = 0;
  created_by = some 1;
}

abbrev pub sales_item : ℕ → ℕ → ℕ → SalesOrderItem
sales_item id so quantity = record {
  id = id;
  sales_order = so;
  product = 10;
  quantity = pos quantity;
  unit_price = pos 900;
  created_at = 0;
}

abbrev pub ledger_row : ℕ → ℕ → TransactionType → InventoryTransaction
ledger_row id quantity transaction_type = record {
  id = id;
  product = 10;
  quantity = pos quantity;
  transaction_type = transaction_type;
  reference_id = none;
  reason = none;
  created_at = 0;
  created_by = none;
}

abbrev pub filed_return : Return
filed_return = record {
  id = 50;
  sales_order = 31;
  product = 10;
  quantity = pos 1;
  reason = "";
  status = pending;
  approved_by = none;
  created_at = 0;
  created_by = some 1;
}

-- Order 30 is open with one line, 31 is completed, and 32 is open with two lines of one product.
abbrev pub shop : Session
shop = record {
  db = record {
    users = boss ∷ user 2 employee ∷ [];
    categories = [];
    suppliers = [];
    products = lamp ∷ [];
    purchase_orders = purchase_order ∷ [];
    purchase_order_items = purchase_item ∷ [];
    sales_orders = sales_order 30 created ∷ sales_order 31 completed ∷ sales_order 32 created ∷ [];
    sales_order_items =
        sales_item 33 30 2 ∷ sales_item 34 31 3 ∷ sales_item 35 32 2 ∷ sales_item 36 32 4 ∷ [];
    transactions =
        ledger_row 41 3 TransactionType.sale ∷ ledger_row 40 8 TransactionType.purchase ∷ [];
    returns = filed_return ∷ [];
    notifications = [];
  };
  on_commit = [];
  ran = [];
  draws = 0;
  now = 7;
}

abbrev pub fields : Fields
fields = record {
  is_email = λ e. true;
  is_full_name = λ e. true;
  is_password = λ e. true;
  normalize_email = λ e. e;
  hash = λ e. 5;
}

abbrev pub ann : RegisterInput
ann = record { email = some "ann@x"; password = some "secret-12"; full_name = some "Ann" }

-- 1 for an admin
abbrev pub admins : User → ℤ
admins u = elim u.role [ admin ↦ pos 1 | _ ↦ pos 0 ]
