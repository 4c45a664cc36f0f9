-- ===== src/Notifications/Views.antt =====
-- apps/notifications/views.py: `NotificationViewSet`, whose rows are those of the user who asks.
use inventra.Prelude.{
  ℕ, ◌≡◌, ◌≢◌, ==_refl, ap, ◌∙◌, Bool-cases, All, some, refl, ◌⊎◌, inl, inr, Bool, true, false, not,
  List, ◌==◌, eq_of_==, Option-cases, if◌then◌else◌,
}
use inventra.Accounts.Models.{User}
use inventra.Notifications.Models.{Notification}
use inventra.Http.{Response, respond, notification_data}
use inventra.Session.{
  Session, Action, ok, raised, pure, gets, or_raise, modify, not_found, ◌>>=◌, ◌>>◌,
}
use inventra.Django.Env.{Env}

module _ (env : Env) where
  -- `get_queryset`; `unread` says whether the parameter is "true"
  unfoldable pub get_queryset : User → Bool → List Notification → List Notification
  get_queryset user unread rows =
      let qs : List Notification = env.orm.notifications.filter (λ n. n.user == user.id) rows in
      if unread then env.orm.notifications.filter (λ n. not n.is_read) qs else qs

  abbrev pub set_read : Notification → Notification
  set_read n = record n { is_read = true }

  unfoldable pub mark_read : User → Bool → ℕ → Action Response
  unfolding get_queryset
  mark_read user unread pk = do
    found ← gets (λ s. env.orm.notifications.get pk (get_queryset user unread s.notifications))
    notification ← or_raise found not_found
    modify λ db. record db {
      notifications = env.orm.notifications.update notification.id set_read db.notifications;
    }
    pure (respond 200 (notification_data (set_read notification)))

  -- Marking a notification as read, without the filter on unread ones, in a table whose rows are
  -- each read by their key: either no notification with the key is of the user who asks, and the
  -- request ends in `Http404` and changes nothing, or the one with the key is of that user, the
  -- answer is it marked as read, the table then has it marked as read, and nothing else changes.
  pub mark_read-own :
      (user : User) (pk : ℕ) (s : Session)
      → All (λ m. env.orm.notifications.get m.id s.notifications ≡ some m) s.notifications
      → ((mark_read user false pk s ≡ (raised not_found, s))
          × ((n : Notification)
              → env.orm.notifications.get pk s.notifications ≡ some n
              → n.user ≢ user.id))
        ⊎ ((n : Notification) × (rows : List Notification) × (env.orm.notifications.get pk
                s.notifications
              ≡ some n)
            × (n.user ≡ user.id)
            × (mark_read user false pk s ≡ (
              ok (respond 200 (notification_data (set_read n))),
              record s { db = record s.db { notifications = rows } },
            ))
            × ((k : ℕ)
                → env.orm.notifications.get k rows ≡ (
                    if k == pk
                    then some (set_read n)
                    else env.orm.notifications.get k s.notifications)))
  unfolding mark_read get_queryset
  mark_read-own user pk s keyed =
      let own : List Notification =
        env.orm.notifications.filter (λ n. n.user == user.id) s.notifications in
      elim (Option-cases (env.orm.notifications.get pk own)) [
        | inl e ↦ inl (
          rw e refl,
          λ n found mine.
              let there =
                env.orm.notifications.get-filter_of (λ m. m.user == user.id) pk s.notifications n
                  found (rw mine (==_refl user.id)) in
              cc,
        )
        | inr (n, e) ↦
            let found =
              env.orm.notifications.get-filter_keyed (λ m. m.user == user.id) pk s.notifications n
                keyed e in
            let key : n.id ≡ pk = env.orm.notifications.pk-get pk own n e in
            inr (
              n,
              env.orm.notifications.update n.id set_read s.notifications,
              found,
              eq_of_== n.user user.id (
                  env.orm.notifications.get-filter (λ m. m.user == user.id) pk s.notifications n e),
              rw e refl,
              λ k.
                  ap
                    (λ j.
                      env.orm.notifications.get k
                        (env.orm.notifications.update j set_read s.notifications))
                    key
                  ∙ marked k n found,
            )
      ]
    where
      marked :
          (k : ℕ) (n : Notification)
          → env.orm.notifications.get pk s.notifications ≡ some n
          → env.orm.notifications.get k (env.orm.notifications.update pk set_read s.notifications)
            ≡ (if k == pk then some (set_read n) else env.orm.notifications.get k s.notifications)
      marked k n found =
          env.orm.notifications.get-update pk set_read s.notifications k (λ r. refl)
          ∙ elim (Bool-cases (k == pk)) [
            | inl same ↦
                let at : env.orm.notifications.get k s.notifications ≡ some n =
                  ap (λ j. env.orm.notifications.get j s.notifications) (eq_of_== k pk same)
                  ∙ found in
                rw (same, at) refl
            | inr other ↦ rw other refl
          ]
