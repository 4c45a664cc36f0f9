-- ===== src/Inventory/Models.antt =====
-- apps/inventory/models.py: the rows of orders, returns and of the stock ledger.
use inventra.Prelude.{ℕ, String, Option}
use inventra.Prelude.Int.{ℤ}

pub data PurchaseOrderStatus : Type 0 where
  ordered received : PurchaseOrderStatus

pub data SalesOrderStatus : Type 0 where
  created completed : SalesOrderStatus

pub data TransactionType : Type 0 where
  purchase sale return damage : TransactionType

pub data ReturnStatus : Type 0 where
  pending approved : ReturnStatus

pub record PurchaseOrder : Type 0 where
  pub id : ℕ
  pub supplier : ℕ
  pub status : PurchaseOrderStatus
  pub received_at : Option ℕ
  pub created_at : ℕ
  pub updated_at : ℕ
  pub created_by : Option ℕ

pub record PurchaseOrderItem : Type 0 where
  pub id : ℕ
  pub purchase_order : ℕ
  pub product : ℕ
  pub quantity : ℤ
  pub unit_cost : ℤ
  pub created_at : ℕ

pub record SalesOrder : Type 0 where
  pub id : ℕ
  pub status : SalesOrderStatus
  pub customer_name : Option String
  pub customer_phone : Option String
  -- the hexadecimal digits of "INV-{...}"
  pub invoice_number : Option ℕ
  pub invoiced_at : Option ℕ
  pub created_at : ℕ
  pub updated_at : ℕ
  pub created_by : Option ℕ

pub record SalesOrderItem : Type 0 where
  pub id : ℕ
  pub sales_order : ℕ
  pub product : ℕ
  pub quantity : ℤ
  pub unit_price : ℤ
  pub created_at : ℕ

pub record InventoryTransaction : Type 0 where
  pub id : ℕ
  pub product : ℕ
  pub quantity : ℤ
  pub transaction_type : TransactionType
  pub reference_id : Option ℕ
  pub reason : Option String
  pub created_at : ℕ
  pub created_by : Option ℕ

pub record Return : Type 0 where
  pub id : ℕ
  pub sales_order : ℕ
  pub product : ℕ
  pub quantity : ℤ
  pub reason : String
  pub status : ReturnStatus
  pub approved_by : Option ℕ
  pub created_at : ℕ
  pub created_by : Option ℕ
