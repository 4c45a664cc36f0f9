-- ===== src/Inventory/Tasks/Alerts.antt =====
-- The alerts that `sweep_low_stock` creates, and why a second run creates none.
use inventra.Prelude.{
  ℕ, ◌+◌, ◌≤◌, ◌≡◌, refl, sym, ◌∙◌, subst, inl, inr, ◌⊎◌, Bool, true, false, Bool-cases, some, List,
  [], ◌∷◌, ◌++◌, map, All, length, arith, ==_refl, if◌then◌else◌, sum_by,
}
use inventra.Prelude.Int.{ℤ, pos, ◌≤ℤ◌, int_laws}
use inventra.Accounts.Models.{User}
use inventra.Notifications.Models.{
  NotificationType, low_stock, out_of_stock, purchase_completed, sale_completed,
  reconciliation_mismatch, Message, Notification,
}
use inventra.Notifications.Services.{
  notification_row, new_notification, recipients, notify_admins_and_managers,
}
use inventra.Notifications.Frame.{with_notifications}
use inventra.Inventory.Requests.{exists}
use inventra.Inventory.Tasks.{
  Sweep, Candidate, is_type, is_alert, flag, flag_all, sweep_low_stock, out_of_stock_candidates,
  low_stock_candidates,
}
use inventra.Session.{Session, ok, collect}
use inventra.Django.Table.{Table}
use inventra.Django.Env.{Env}

module _ {R : Type 0} {pk : R → ℕ} (table : Table R pk) where
  -- the number of rows that pass, as a sum
  abbrev pub count : (R → Bool) → List R → ℤ
  count p t = sum_by (λ r. if p r then pos 1 else pos 0) t

  sum_by-ones : (t : List R) → sum_by (λ (r : R). pos 1) t ≡ pos (length t)
  unfolding sum_by
  sum_by-ones [] = refl
  sum_by-ones (r ∷ t) = rw (sum_by-ones t) (omega int_laws)

  length-filter : (p : R → Bool) (t : List R) → pos (length (table.filter p t)) ≡ count p t
  length-filter p t = sym (sum_by-ones (table.filter p t)) ∙ table.sum-filter (λ r. pos 1) p t

  exists-filter :
      (l : List R)
      → ((elim l [ [] ↦ false | _ ∷ _ ↦ true ]) ≡ true)
        ⊎ (((elim l [ [] ↦ false | _ ∷ _ ↦ true ]) ≡ false) × (length l ≡ 0))
  exists-filter [] = inr (refl, refl)
  exists-filter (r ∷ l) = inl refl

  -- a filter that counts a row finds one
  pub exists-count : (p : R → Bool) (t : List R) → pos 1 ≤ℤ count p t → exists table p t ≡ true
  unfolding exists
  exists-count p t h = elim (exists-filter (table.filter p t)) [
    | inl e ↦ e
    | inr (e, z) ↦
        let n : pos (length (table.filter p t)) ≡ count p t = length-filter p t in
        absurd (omega (arith, z, subst (λ c. pos 1 ≤ℤ c) (sym n) h))
  ]

  pub count-exists : (p : R → Bool) (t : List R) → exists table p t ≡ true → pos 1 ≤ℤ count p t
  unfolding exists
  count-exists p t h = rw (← length-filter p t) (at_least (table.filter p t) h)
    where
      at_least :
          (l : List R) → (elim l [ [] ↦ false | _ ∷ _ ↦ true ]) ≡ true → pos 1 ≤ℤ pos (length l)
      at_least [] e = cc
      at_least (r ∷ l) e = omega arith

  count-nonneg : (p : R → Bool) (t : List R) → pos 0 ≤ℤ count p t
  count-nonneg p t = rw (← length-filter p t) (omega arith)

module _ (env : Env) where
  abbrev HasAlert : NotificationType → ℕ → List Notification → Type 0
  HasAlert ntype k ns = exists env.orm.notifications (is_alert ntype k) ns ≡ true

  abbrev alert_count : NotificationType → ℕ → List Notification → ℤ
  alert_count ntype k ns = count env.orm.notifications (is_alert ntype k) ns

  is_type_refl : (t : NotificationType) → is_type t t ≡ true
  is_type_refl low_stock = refl
  is_type_refl out_of_stock = refl
  is_type_refl purchase_completed = refl
  is_type_refl sale_completed = refl
  is_type_refl reconciliation_mismatch = refl

  -- each recipient gets one alert
  collect-alerts :
      (ntype : NotificationType) (message : Message) (k : ℕ) (ids : List ℕ) (s : Session)
      → (rows : List Notification) × (d : ℕ) × (collect
            (new_notification env ntype message (some k))
            ids
            s
          ≡ (ok rows, record s { draws = d }))
        × (alert_count ntype k rows ≡ pos (length ids))
  unfolding collect new_notification sum_by
  collect-alerts ntype message k [] s = ([], s.draws, refl, refl)
  collect-alerts ntype message k (i ∷ ids) s =
      let (rows, d, e, c) = collect-alerts ntype message k ids (record s { draws = s.draws + 1 }) in
      (
        notification_row ntype message (some k) (env.uuid4 s.draws) s.now i ∷ rows,
        d,
        rw e refl,
        rw (is_type_refl ntype, ==_refl k, c) (omega int_laws),
      )

  abbrev recipient_ids : Session → List ℕ
  recipient_ids s = map (λ (u : User). u.id) (recipients env s.users)

  -- what was alerted stays alerted
  abbrev Grows : List Notification → List Notification → Type 0
  Grows ns ns' = (t : NotificationType) (k : ℕ) → HasAlert t k ns → HasAlert t k ns'

  bulk_create-Grows :
      (rows ns : List Notification) → Grows ns (env.orm.notifications.bulk_create rows ns)
  bulk_create-Grows rows ns t k h = exists-count env.orm.notifications (is_alert t k) _ (
      rw
        (env.orm.notifications.sum-bulk_create (λ r. if is_alert t k r then pos 1 else pos 0) rows
          ns)
        (omega (
          int_laws,
          count-exists env.orm.notifications (is_alert t k) ns h,
          count-nonneg env.orm.notifications (is_alert t k) rows,
        )))

  notify-HasAlert :
      (ntype : NotificationType) (message : Message) (k : ℕ) (s : Session)
      → 1 ≤ length (recipient_ids s)
      → (n : List Notification) × (d : ℕ) × (notify_admins_and_managers env ntype message (some k) s
          ≡ (ok tt, with_notifications s n d))
        × HasAlert ntype k n
        × Grows s.notifications n
  unfolding notify_admins_and_managers
  notify-HasAlert ntype message k s someone =
      let (rows, d, e, c) = collect-alerts ntype message k (recipient_ids s) s in
      let n : List Notification = env.orm.notifications.bulk_create rows s.notifications in
      (
        n,
        d,
        rw e refl,
        exists-count env.orm.notifications (is_alert ntype k) n (
            rw
              (
                env.orm.notifications.sum-bulk_create
                    (λ r. if is_alert ntype k r then pos 1 else pos 0) rows s.notifications,
                c,
              )
              (omega
                (int_laws, count-nonneg env.orm.notifications (is_alert ntype k) s.notifications))),
        bulk_create-Grows rows s.notifications,
      )

  abbrev IsAlerted : List Notification → Candidate → Type 0
  IsAlerted ns c = HasAlert c.type c.product.id ns

  flag-IsAlerted :
      (c : Candidate) (s : Session)
      → 1 ≤ length (recipient_ids s)
      → (m : ℕ) × (n : List Notification) × (d : ℕ) × (flag env c s
          ≡ (ok m, with_notifications s n d))
        × IsAlerted n c
        × Grows s.notifications n
  unfolding flag
  flag-IsAlerted c s someone =
      elim (Bool-cases
        (exists env.orm.notifications (is_alert c.type c.product.id) s.notifications)) [
          | inl e ↦ (0, s.notifications, s.draws, rw e refl, e, λ t k h. h)
          | inr e ↦
              let (n, d, q, a, g) = notify-HasAlert c.type c.message c.product.id s someone in
              (1, n, d, rw (e, q) refl, a, g)
        ]

  flag_all-IsAlerted :
      (cs : List Candidate) (flagged : ℕ) (s : Session)
      → 1 ≤ length (recipient_ids s)
      → (m : ℕ) × (n : List Notification) × (d : ℕ) × (flag_all env cs flagged s
          ≡ (ok m, with_notifications s n d))
        × All (IsAlerted n) cs
        × Grows s.notifications n
  unfolding flag_all
  flag_all-IsAlerted [] flagged s someone =
      (flagged, s.notifications, s.draws, refl, tt, λ t k h. h)
  flag_all-IsAlerted (c ∷ cs) flagged s someone =
      let (m, n, d, e, a, g) = flag-IsAlerted c s someone in
      let (m', n', d', e', a', g') =
        flag_all-IsAlerted cs (flagged + m) (with_notifications s n d) someone in
      (m', n', d', rw e e', (g' c.type c.product.id a, a'), λ t k h. g' t k (g t k h))

  flag_all-idle :
      (cs : List Candidate) (flagged : ℕ) (s : Session)
      → All (IsAlerted s.notifications) cs
      → flag_all env cs flagged s ≡ (ok flagged, s)
  unfolding flag_all flag
  flag_all-idle [] flagged s h = refl
  flag_all-idle (c ∷ cs) flagged s h =
      let same : flagged + 0 ≡ flagged = omega arith in
      rw (h.0, same) (flag_all-idle cs flagged s h.1)

  -- If some active admin or manager is there to be notified, the task returns, and run again on
  -- what it left it flags no product and changes nothing.
  pub sweep_low_stock_twice :
      (s : Session)
      → 1 ≤ length (recipient_ids s)
      → (r : Sweep) × (t : Session) × (sweep_low_stock env s ≡ (ok r, t))
        × (sweep_low_stock env t ≡ (ok (record r { flagged = 0 }), t))
  unfolding sweep_low_stock
  sweep_low_stock_twice s someone =
      let cs : List Candidate =
        out_of_stock_candidates env s.products ++ low_stock_candidates env s.products in
      let (m, n, d, e, a, _) = flag_all-IsAlerted cs 0 s someone in
      (
        record { candidates = length cs; flagged = m },
        with_notifications s n d,
        rw e refl,
        rw (flag_all-idle cs 0 (with_notifications s n d) a) refl,
      )
