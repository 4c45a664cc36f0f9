-- ===== src/Session.antt =====
-- What one request reads and writes: the tables, the callbacks registered with
-- `transaction.on_commit`, and those that have been run. A handler is an action of that state,
-- which returns or raises. What was written before a raise stays written unless `atomic` undoes it.
pub mod Outcome
pub mod Keeps
use inventra.Prelude.{ℕ, suc, ◌+◌, Bool, true, false, Option, none, some, List, [], ◌∷◌, ◌++◌}
use inventra.Accounts.Models.{User}
use inventra.Catalog.Models.{Category, Supplier, Product}
use inventra.Notifications.Models.{Notification}
use inventra.Inventory.Models.{
  PurchaseOrder, PurchaseOrderItem, SalesOrder, SalesOrderItem, InventoryTransaction, Return,
}

pub record Db : Type 0 where
  pub users : List User
  pub categories : List Category
  pub suppliers : List Supplier
  pub products : List Product
  pub purchase_orders : List PurchaseOrder
  pub purchase_order_items : List PurchaseOrderItem
  pub sales_orders : List SalesOrder
  pub sales_order_items : List SalesOrderItem
  pub transactions : List InventoryTransaction
  pub returns : List Return
  pub notifications : List Notification

pub data Callback : Type 0 where
  -- `lambda: bump_version("inventory")`
  bump_inventory : Callback
  -- `lambda: generate_invoice_pdf.apply_async(args=[so.id], task_id=task_id, ...)`
  generate_invoice : ℕ → ℕ → Callback

pub record Session : Type 0 where
  pub db : Db
  pub open db use *
  pub on_commit : List Callback
  pub ran : List Callback
  -- how often `uuid.uuid4` has been called
  pub draws : ℕ
  -- `timezone.now()`
  pub now : ℕ

pub data Error : Type 0 where
  -- `Model.DoesNotExist`, which no handler catches
  does_not_exist : Error
  -- `Http404`, raised by `get_object()`
  not_found : Error
  validation_error : Error
  key_error : Error
  integrity_error : Error
  value_error : Error
  data_error : Error
  -- `MultipleObjectsReturned`, and the refusal to delete a row that another refers to
  multiple_objects_returned : Error
  protected_error : Error

pub data Result (A : Type 0) : Type 0 where
  ok : A → Result A
  raised : Error → Result A

abbrev pub Action : Type 0 → Type 0
Action A = Session → Result A × Session

module _ {A : Type 0} where
  abbrev pub pure : A → Action A
  pure a s = (ok a, s)

  abbrev pub raise : Error → Action A
  raise e s = (raised e, s)

  abbrev pub gets : (Session → A) → Action A
  gets f s = (ok (f s), s)

  abbrev pub or_raise : Option A → Error → Action A
  or_raise none e = raise e
  or_raise (some a) _ = pure a

abbrev pub continue : {A B : Type 0} → Result A → (A → Action B) → Action B
continue (ok a) f s = f a s
continue (raised e) f s = (raised e, s)

infixl 5 ◌>>=◌ ◌>>◌
abbrev pub ◌>>=◌ : {A B : Type 0} → Action A → (A → Action B) → Action B
◌>>=◌ m f s = let (r, s') = m s in continue r f s'

abbrev pub ◌>>◌ : {A B : Type 0} → Action A → Action B → Action B
m >> k = m >>= λ _. k

abbrev pub raise_if : Bool → Error → Action Unit
raise_if true e = raise e
raise_if false e = pure tt

abbrev pub raise_unless : Bool → Error → Action Unit
raise_unless true e = pure tt
raise_unless false e = raise e

abbrev pub modify : (Db → Db) → Action Unit
modify f s = (ok tt, record s { db = f s.db })

-- `transaction.on_commit(callback)`
abbrev pub on_commit : Callback → Action Unit
on_commit c s = (ok tt, record s { on_commit = s.on_commit ++ c ∷ [] })

-- a `for` loop, and a comprehension over a list
unfoldable pub for_each : {A : Type 0} → (A → Action Unit) → List A → Action Unit
for_each f [] = pure tt
for_each f (x ∷ xs) = let rest = for_each f xs in f x >> rest

unfoldable pub collect : {A B : Type 0} → (A → Action B) → List A → Action (List B)
collect f [] = pure []
collect f (x ∷ xs) = let rest = collect f xs in do y ← f x; ys ← rest; pure (y ∷ ys)

-- how a block under `transaction.atomic()` that began in `s` ends: it commits and runs the
-- callbacks in their order, or it is undone and they are dropped
abbrev pub settle : {A : Type 0} → Session → Result A × Session → Result A × Session
settle s (ok a, t) = (ok a, record t { ran = t.ran ++ t.on_commit; on_commit = [] })
settle s (raised e, t) = (raised e, record t { db = s.db; on_commit = s.on_commit })
