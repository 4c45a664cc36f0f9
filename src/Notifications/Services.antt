-- ===== src/Notifications/Services.antt =====
-- apps/notifications/services.py, and `check_and_notify_stock` of apps/inventory/views.py, which is
-- written in terms of it.
use inventra.Prelude.{ℕ, Bool, true, false, ◌&&◌, Option, some, List, map, if◌then◌else◌}
use inventra.Prelude.Int.{pos, leb_ℤ}
use inventra.Accounts.Models.{User, RoleName, admin, manager, employee}
use inventra.Catalog.Models.{Product}
use inventra.Notifications.Models.{
  NotificationType, low_stock, out_of_stock, Message, is_out_of_stock, is_low_on_stock,
  Notification,
}
use inventra.Session.{Action, pure, gets, modify, collect, ◌>>=◌}
use inventra.Django.Env.{Env, draw}

abbrev pub is_admin_or_manager : RoleName → Bool
is_admin_or_manager admin = true
is_admin_or_manager manager = true
is_admin_or_manager employee = false

abbrev pub notification_row : NotificationType → Message → Option ℕ → ℕ → ℕ → ℕ → Notification
notification_row ntype message reference_id id now user_id = record {
  id = id;
  user = user_id;
  type = ntype;
  message = message;
  reference_id = reference_id;
  is_read = false;
  created_at = now;
}

module _ (env : Env) where
  -- `Notification(user_id=..., type=..., message=..., reference_id=...)`, with the defaults
  unfoldable pub new_notification : NotificationType → Message → Option ℕ → ℕ → Action Notification
  unfolding draw
  new_notification ntype message reference_id user_id = do
    id ← draw env
    now ← gets (λ s. s.now)
    pure (notification_row ntype message reference_id id now user_id)

  unfoldable pub notify : ℕ → NotificationType → Message → Option ℕ → Action Unit
  unfolding new_notification
  notify user_id ntype message reference_id = do
    row ← new_notification ntype message reference_id user_id
    modify λ db. record db { notifications = env.orm.notifications.insert row db.notifications }

  unfoldable pub recipients : List User → List User
  recipients users = env.orm.users.filter (λ u. u.is_active && is_admin_or_manager u.role) users

  unfoldable pub notify_admins_and_managers : NotificationType → Message → Option ℕ → Action Unit
  unfolding recipients collect new_notification
  notify_admins_and_managers ntype message reference_id = do
    user_ids ← gets (λ s. map (λ (u : User). u.id) (recipients s.users))
    rows ← collect (new_notification ntype message reference_id) user_ids
    modify
        λ db. record db { notifications = env.orm.notifications.bulk_create rows db.notifications }

  unfoldable pub check_and_notify_stock : Product → Action Unit
  unfolding notify_admins_and_managers
  check_and_notify_stock product =
      if leb_ℤ product.current_stock (pos 0)
      then notify_admins_and_managers out_of_stock (is_out_of_stock product.name product.sku)
          (some product.id)
      else if leb_ℤ product.current_stock product.low_stock_threshold
      then notify_admins_and_managers low_stock
          (is_low_on_stock product.name product.sku product.current_stock) (some product.id)
      else pure tt
