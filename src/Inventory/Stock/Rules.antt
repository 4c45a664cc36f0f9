-- ===== src/Inventory/Stock/Rules.antt =====
-- Rules for the actions that begin with one of the shared reads and writes: what has to be shown of
-- the rest, so that the whole leaves what is asked if it returns.
use inventra.Prelude.{ℕ, ◌≡◌, inl, inr, Option, some, String, List}
use inventra.Prelude.Int.{ℤ}
use inventra.Accounts.Models.{User}
use inventra.Catalog.Models.{Product}
use inventra.Inventory.Models.{TransactionType, InventoryTransaction}
use inventra.Inventory.Stock.{get_product, save_stock, create_transaction}
use inventra.Inventory.Stock.Cases.{
  saved, transaction_row, recorded, get_product-cases, save_stock-cases, create_transaction-cases,
}
use inventra.Notifications.Models.{Notification}
use inventra.Notifications.Frame.{with_notifications, IsQuiet}
use inventra.Session.{Session, Action, ◌>>=◌}
use inventra.Session.Outcome.{Returns}
use inventra.Django.Env.{Env}

pub quiet_last :
    (Q : Unit {0} → Session → Type 0) (m : Action Unit) (s : Session)
    → IsQuiet m
    → ((n : List Notification) (d : ℕ) → Q tt (with_notifications s n d))
    → Returns Q (m s)
quiet_last Q m s q rest = let (n, d, e) = q s in rw e (rest n d)

module _ {B : Type 0} (Q : B → Session → Type 0) where
  pub quiet_bind :
      (m : Action Unit) (k : Unit {0} → Action B) (s : Session)
      → IsQuiet m
      → ((n : List Notification) (d : ℕ) → Returns Q (k tt (with_notifications s n d)))
      → Returns Q ((m >>= k) s)
  quiet_bind m k s q rest = let (n, d, e) = q s in rw e (rest n d)

  module _ (env : Env) where
    pub get_product_bind :
        (pk : ℕ) (k : Product → Action B) (s : Session)
        → ((p : Product) → env.orm.products.get pk s.products ≡ some p → Returns Q (k p s))
        → Returns Q ((get_product env pk >>= k) s)
    get_product_bind pk k s rest = elim (get_product-cases env pk s) [
      | inl e ↦ rw e tt
      | inr (p, found, e) ↦ rw e (rest p found)
    ]

    -- the pair of writes of a stock mutation
    pub move_bind :
        (product : Product) (quantity : ℤ) (transaction_type : TransactionType)
        (reference_id : Option ℕ) (reason : Option String) (user : User)
        (k : InventoryTransaction → Action B) (s : Session)
        → let t = saved env product s in
          let row =
            transaction_row env product quantity transaction_type reference_id reason user t in
          Returns Q (k row (recorded env row t))
          → Returns Q (
              (save_stock env product >>= λ _.
              create_transaction env product quantity transaction_type reference_id reason user
              >>= k)
                s)
    move_bind product quantity transaction_type reference_id reason user k s rest =
        elim (save_stock-cases env product s) [
          | inl e ↦ rw e tt
          | inr e ↦
              rw e
                (elim (create_transaction-cases env product quantity transaction_type reference_id
                  reason user (saved env product s)) [ inl e' ↦ rw e' tt | inr e' ↦ rw e' rest ])
        ]
