-- ===== src/Django/Env.antt =====
-- What the handlers are given: a table for each model, transactions, and the random identifiers.
use inventra.Prelude.{ℕ, ◌+◌, ◌≡◌}
use inventra.Accounts.Models.{User}
use inventra.Catalog.Models.{Category, Supplier, Product}
use inventra.Notifications.Models.{Notification}
use inventra.Inventory.Models.{
  PurchaseOrder, PurchaseOrderItem, SalesOrder, SalesOrderItem, InventoryTransaction, Return,
}
use inventra.Session.{Session, ok, Action, settle}
use inventra.Django.Table.{Table}

pub record Orm : Type 0 where
  pub users : Table User (λ r. r.id)
  pub categories : Table Category (λ r. r.id)
  pub suppliers : Table Supplier (λ r. r.id)
  pub products : Table Product (λ r. r.id)
  pub purchase_orders : Table PurchaseOrder (λ r. r.id)
  pub purchase_order_items : Table PurchaseOrderItem (λ r. r.id)
  pub sales_orders : Table SalesOrder (λ r. r.id)
  pub sales_order_items : Table SalesOrderItem (λ r. r.id)
  pub transactions : Table InventoryTransaction (λ r. r.id)
  pub returns : Table Return (λ r. r.id)
  pub notifications : Table Notification (λ r. r.id)

pub record Env : Type 1 where
  pub orm : Orm
  -- the n-th result of `uuid.uuid4()`, as a 128-bit number
  pub uuid4 : ℕ → ℕ
  -- `with transaction.atomic(): ...`
  pub atomic : (A : Type 0) → Action A → Action A
  pub atomic_lem : (A : Type 0) (m : Action A) (s : Session) → atomic A m s ≡ settle s (m s)

-- a new identifier
unfoldable pub draw : Env → Action ℕ
draw env s = (ok (env.uuid4 s.draws), record s { draws = s.draws + 1 })
