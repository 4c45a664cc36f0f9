-- ===== src/Notifications/Frame.antt =====
-- The services of apps/notifications/services.py never raise, and touch nothing but the table of
-- notifications.
use inventra.Prelude.{
  arith, ◌≤◌, ℕ, ◌+◌, ◌≡◌, refl, inl, inr, Option, List, [], ◌∷◌, map, Bool-cases,
}
use inventra.Prelude.Int.{pos, leb_ℤ}
use inventra.Accounts.Models.{User}
use inventra.Catalog.Models.{Product}
use inventra.Notifications.Models.{NotificationType, Message, Notification}
use inventra.Session.{Session, Action, ok, collect}
use inventra.Django.Env.{Env}
use inventra.Notifications.Services.{
  notification_row, new_notification, notify, recipients, notify_admins_and_managers,
  check_and_notify_stock,
}

-- the state with another table of notifications
abbrev pub with_notifications : Session → List Notification → ℕ → Session
with_notifications s n d = record s { db = record s.db { notifications = n }; draws = d }

-- the action returns, and at most the notifications and the count of identifiers change
abbrev pub IsQuiet : Action Unit → Type 0
IsQuiet m =
    (s : Session) → (n : List Notification) × (d : ℕ) × (m s ≡ (ok tt, with_notifications s n d))

module _ (env : Env) where
  collect-new_notification :
      (ntype : NotificationType) (message : Message) (reference_id : Option ℕ) (ids : List ℕ)
      (s : Session)
      → (rows : List Notification) × (d : ℕ) × (s.draws ≤ d)
        × (collect (new_notification env ntype message reference_id) ids s
            ≡ (ok rows, record s { draws = d }))
  unfolding collect new_notification
  collect-new_notification ntype message reference_id [] s = ([], s.draws, omega arith, refl)
  collect-new_notification ntype message reference_id (i ∷ ids) s =
      let (rows, d, le, e) =
        collect-new_notification ntype message reference_id ids
          (record s { draws = s.draws + 1 }) in
      (
        notification_row ntype message reference_id (env.uuid4 s.draws) s.now i ∷ rows,
        d,
        omega arith,
        rw e refl,
      )

  pub notify-IsQuiet :
      (user_id : ℕ) (ntype : NotificationType) (message : Message) (reference_id : Option ℕ)
      → IsQuiet (notify env user_id ntype message reference_id)
  unfolding notify
  notify-IsQuiet user_id ntype message reference_id s = (_, _, refl)

  pub notify_admins_and_managers-IsQuiet :
      (ntype : NotificationType) (message : Message) (reference_id : Option ℕ)
      → IsQuiet (notify_admins_and_managers env ntype message reference_id)
  unfolding notify_admins_and_managers
  notify_admins_and_managers-IsQuiet ntype message reference_id s =
      let (rows, d, _, e) =
        collect-new_notification ntype message reference_id
          (map (λ (u : User). u.id) (recipients env s.users)) s in
      (env.orm.notifications.bulk_create rows s.notifications, d, rw e refl)

  pub check_and_notify_stock-IsQuiet :
      (product : Product) → IsQuiet (check_and_notify_stock env product)
  unfolding check_and_notify_stock
  check_and_notify_stock-IsQuiet product s =
      elim (Bool-cases (leb_ℤ product.current_stock (pos 0))) [
        | inl out ↦ rw out (notify_admins_and_managers-IsQuiet _ _ _ s)
        | inr some_left ↦
            elim (Bool-cases (leb_ℤ product.current_stock product.low_stock_threshold)) [
              | inl low ↦ rw (some_left, low) (notify_admins_and_managers-IsQuiet _ _ _ s)
              | inr enough ↦ rw (some_left, enough) (_, _, refl)
            ]
      ]

  notify_admins_and_managers-draws :
      (ntype : NotificationType) (message : Message) (reference_id : Option ℕ) (s : Session)
      → s.draws ≤ ((notify_admins_and_managers env ntype message reference_id s).1).draws
  unfolding notify_admins_and_managers
  notify_admins_and_managers-draws ntype message reference_id s =
      let (rows, d, le, e) =
        collect-new_notification ntype message reference_id
          (map (λ (u : User). u.id) (recipients env s.users)) s in
      rw e le

  -- an identifier is never drawn twice
  pub check_and_notify_stock-draws :
      (product : Product) (s : Session) → s.draws ≤ ((check_and_notify_stock env product s).1).draws
  unfolding check_and_notify_stock
  check_and_notify_stock-draws product s = elim (Bool-cases (leb_ℤ product.current_stock (pos 0))) [
    | inl out ↦ rw out (notify_admins_and_managers-draws _ _ _ s)
    | inr some_left ↦ elim (Bool-cases (leb_ℤ product.current_stock product.low_stock_threshold)) [
      | inl low ↦ rw (some_left, low) (notify_admins_and_managers-draws _ _ _ s)
      | inr enough ↦ rw (some_left, enough) (omega arith)
    ]
  ]
