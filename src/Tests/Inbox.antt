-- ===== src/Tests/Inbox.antt =====
-- A notification at the shop of `Tests.Shop`.
use inventra.Prelude.{ℕ, ◌==◌, ◌≡◌, ◌≢◌, ◌⊎◌, refl, if◌then◌else◌, false, none, some, List, [], ◌∷◌}
use inventra.Notifications.Models.{Notification, low_stock, found_mismatches}
use inventra.Notifications.Views.{set_read, mark_read, mark_read-own}
use inventra.Http.{respond, notification_data}
use inventra.Session.{Session, ok, raised, not_found}
use inventra.Django.Find.{find}
use inventra.Tests.Shop.{env, boss, shop}

abbrev alert : Notification
alert = record {
  id = 60;
  user = 1;
  type = low_stock;
  message = found_mismatches 1;
  reference_id = none;
  is_read = false;
  created_at = 0;
}

abbrev alerted_shop : Session
alerted_shop = record shop { db = record shop.db { notifications = alert ∷ [] } }

alert-found : env.orm.notifications.get 60 alerted_shop.notifications ≡ some alert
unfolding find
alert-found = refl

mark_read-own_example :
    ((mark_read env boss false 60 alerted_shop ≡ (raised not_found, alerted_shop))
      × ((n : Notification)
          → env.orm.notifications.get 60 alerted_shop.notifications ≡ some n
          → n.user ≢ boss.id))
    ⊎ ((n : Notification) × (rows : List Notification) × (env.orm.notifications.get 60
            alerted_shop.notifications
          ≡ some n)
        × (n.user ≡ boss.id)
        × (mark_read env boss false 60 alerted_shop ≡ (
          ok (respond 200 (notification_data (set_read env n))),
          record alerted_shop { db = record alerted_shop.db { notifications = rows } },
        ))
        × ((k : ℕ)
            → env.orm.notifications.get k rows ≡ (
                if k == 60
                then some (set_read env n)
                else env.orm.notifications.get k alerted_shop.notifications)))
mark_read-own_example = mark_read-own env boss 60 alerted_shop (alert-found, tt)
