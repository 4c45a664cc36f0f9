-- ===== src/Api/Growth.antt =====
-- The ledger is append-only: no handler changes or removes a row of it.
use inventra.Prelude.{ℕ, ◌≡◌, sym, String, Option, List, sum_by, subst, Bool, true, false, arith}
use inventra.Prelude.Int.{ℤ, pos, ◌≤ℤ◌, int_laws}
use inventra.Accounts.Models.{User}
use inventra.Catalog.Models.{Product}
use inventra.Notifications.Models.{NotificationType, Message}
use inventra.Notifications.Services.{
  notify, notify_admins_and_managers, check_and_notify_stock, new_notification,
}
use inventra.Inventory.Models.{TransactionType, InventoryTransaction}
use inventra.Inventory.Stock.{get_product, save_stock, create_transaction}
use inventra.Session.{Db, Error, modify, raise_if}
use inventra.Session.Keeps.{Preorder, Keeps, runs}
use inventra.Django.Env.{Env}

-- a count of rows by any weight that is not negative
unfoldable pub Grows : List InventoryTransaction → List InventoryTransaction → Type 0
Grows before after =
    (w : InventoryTransaction → ℤ)
    → ((t : InventoryTransaction) → pos 0 ≤ℤ w t)
    → sum_by w before ≤ℤ sum_by w after

pub Grows-refl : (ts : List InventoryTransaction) → Grows ts ts
unfolding Grows
Grows-refl ts w n = omega arith

pub Grows-trans : (a b c : List InventoryTransaction) → Grows a b → Grows b c → Grows a c
unfolding Grows
Grows-trans a b c h h' w n = let x = h w n in let y = h' w n in omega arith

abbrev pub growing : Preorder
growing = record {
  Rel = λ a b. Grows a.transactions b.transactions;
  reflexive = λ db. Grows-refl db.transactions;
  transitive = λ a b c h h'. Grows-trans a.transactions b.transactions c.transactions h h';
}

pub unwritten-Keeps :
    (g : Db → Db) → ((db : Db) → (g db).transactions ≡ db.transactions) → Keeps growing (modify g)
unwritten-Keeps g h s = subst (Grows s.transactions) (sym (h s.db)) (Grows-refl s.transactions)

pub raise_if-Keeps : (b : Bool) (e : Error) → Keeps growing (raise_if b e)
raise_if-Keeps true e s = Grows-refl s.transactions
raise_if-Keeps false e s = Grows-refl s.transactions

module _ (env : Env) where
  insert-Keeps :
      (row : InventoryTransaction)
      → Keeps growing (
          modify λ db. record db { transactions = env.orm.transactions.insert row db.transactions })
  unfolding Grows
  insert-Keeps row s w n =
      let law = env.orm.transactions.sum-insert w row s.transactions in
      let m = n row in rw law (omega int_laws)

  new_notification-Keeps :
      (t : NotificationType) (m : Message) (r : Option ℕ) (u : ℕ)
      → Keeps growing (new_notification env t m r u)
  unfolding new_notification
  new_notification-Keeps t m r u = search runs

  pub notify-Keeps :
      (u : ℕ) (t : NotificationType) (m : Message) (r : Option ℕ)
      → Keeps growing (notify env u t m r)
  unfolding notify
  notify-Keeps u t m r = search (runs, new_notification-Keeps)

  pub notify_all-Keeps :
      (t : NotificationType) (m : Message) (r : Option ℕ)
      → Keeps growing (notify_admins_and_managers env t m r)
  unfolding notify_admins_and_managers
  notify_all-Keeps t m r = search (runs, unwritten-Keeps, new_notification-Keeps) depth 12

  pub check_and_notify_stock-Keeps : (p : Product) → Keeps growing (check_and_notify_stock env p)
  unfolding check_and_notify_stock
  check_and_notify_stock-Keeps p = search (runs, notify_all-Keeps)

  pub get_product-Keeps : (pk : ℕ) → Keeps growing (get_product env pk)
  unfolding get_product
  get_product-Keeps pk = search runs

  pub save_stock-Keeps : (p : Product) → Keeps growing (save_stock env p)
  unfolding save_stock
  save_stock-Keeps p = search runs

  pub create_transaction-Keeps :
      (product : Product) (q : ℤ) (t : TransactionType) (r : Option ℕ) (reason : Option String)
      (u : User)
      → Keeps growing (create_transaction env product q t r reason u)
  unfolding create_transaction
  create_transaction-Keeps product q t r reason u = search (runs, insert-Keeps) depth 12
