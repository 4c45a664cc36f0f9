-- ===== src/Inventory/Sales/Replay.antt =====
-- A second `complete` of the same sales order.
use inventra.Prelude.{
  ℕ, ◌≡◌, refl, ◌⊎◌, inl, inr, false, Bool-cases, Option-cases, none, some, List, ◌+◌, ==_refl,
  subst, ap, ◌∙◌,
}
use inventra.Prelude.Int.{◌-ℤ◌}
use inventra.Accounts.Models.{User}
use inventra.Catalog.Models.{Product}
use inventra.Inventory.Models.{SalesOrder, SalesOrderItem, completed, sale}
use inventra.Inventory.Stock.{set_stock}
use inventra.Inventory.Stock.Rules.{move_bind, quiet_last}
use inventra.Inventory.Sales.{is_created, get_sales_order}
use inventra.Inventory.Sales.Complete.{
  invoice_digits, has_invoice, ordered_items, check_items, deduct_item, finish_complete,
  deduct_items, complete_block, after_complete, complete,
}
use inventra.Inventory.Sales.Lines.{Line, IsChecked, check_items-IsChecked}
use inventra.Inventory.Sales.Balance.{after_complete-IsReader, notify_creator-IsQuiet}
use inventra.Inventory.Requests.{exists}
use inventra.Notifications.Services.{check_and_notify_stock}
use inventra.Notifications.Frame.{check_and_notify_stock-IsQuiet}
use inventra.Http.{Response, respond, detail, already_completed}
use inventra.Session.{Session, Db, ok, for_each}
use inventra.Session.Outcome.{Returns, for_each-Returns, bind-Returns, map-Returns}
use inventra.Django.Env.{Env, draw}
use inventra.Django.Atomic.{atomic_then}

module _ (env : Env) where
  -- the order is there, and it has been completed
  pub record IsCompleted (pk : ℕ) (db : Db) : Type 0 where
    pub so : SalesOrder
    pub found : env.orm.sales_orders.get pk db.sales_orders ≡ some so
    pub is_closed : is_created so.status ≡ false

  deduct_item-orders :
      (user : User) (so : ℕ) (orders : List SalesOrder) (l : Line) (s : Session)
      → s.sales_orders ≡ orders
      → Returns (λ _ t. t.sales_orders ≡ orders) (deduct_item env user so l s)
  unfolding deduct_item
  deduct_item-orders user so orders (item, p) s h =
      let product : Product = set_stock (p.current_stock -ℤ item.quantity) p in
      move_bind keeps env product item.quantity sale (some so) none user _ s (
        quiet_last keeps (check_and_notify_stock env product) _
          (check_and_notify_stock-IsQuiet env product) λ n d. h)
    where
      keeps : Unit {0} → Session → Type 0
      keeps _ t = t.sales_orders ≡ orders

  finish_complete-IsCompleted :
      (so : SalesOrder) (s : Session)
      → env.orm.sales_orders.get so.id s.sales_orders ≡ some so
      → Returns (λ _ t. IsCompleted so.id t.db) (finish_complete env so s)
  unfolding finish_complete draw
  finish_complete-IsCompleted so s e =
      let digits : ℕ = invoice_digits (env.uuid4 s.draws) in
      let close : SalesOrder → SalesOrder = λ r. record r {
        status = completed;
        invoice_number = some digits;
        invoiced_at = some s.now;
      } in
      let orders : List SalesOrder = env.orm.sales_orders.update so.id close s.sales_orders in
      let written : env.orm.sales_orders.get so.id orders ≡ some (close so) =
        rw
          (
            env.orm.sales_orders.get-update so.id close s.sales_orders so.id (λ r. refl),
            ==_refl so.id,
            e,
          )
          refl in
      elim (Bool-cases
        (exists env.orm.sales_orders (λ r. has_invoice so.id digits r) s.sales_orders)) [
          | inl taken ↦ rw taken tt
          | inr free ↦
              let (n, d, q) =
                notify_creator-IsQuiet env so.created_by so.id
                  (record s { db = record s.db { sales_orders = orders }; draws = s.draws + 1 }) in
              rw (free, q) (record { so = close so; found = written; is_closed = refl })
        ]

  complete_block-IsCompleted :
      (user : User) (pk : ℕ) (s : Session)
      → Returns (λ _ t. (t.db ≡ s.db) ⊎ IsCompleted pk t.db) (complete_block env user pk s)
  unfolding complete_block get_sales_order deduct_items
  complete_block-IsCompleted user pk s =
      elim (Option-cases (env.orm.sales_orders.get pk s.sales_orders)) [
        | inl e ↦ rw e tt
        | inr (so, e) ↦ elim (Bool-cases (is_created so.status)) [
          | inr closed ↦ rw (e, closed) (inl refl)
          | inl open_ ↦
              let items : List SalesOrderItem = ordered_items env so.id s.sales_order_items in
              rw (e, open_)
                (bind-Returns (IsChecked env items s) outcome (check_items env items)
                  (deduct_items env user so) s (check_items-IsChecked env items s)
                  λ r t c. deducted so e items r t c)
        ]
      ]
    where
      outcome : {A : Type 0} → A → Session → Type 0
      outcome _ t = (t.db ≡ s.db) ⊎ IsCompleted pk t.db

      deducted :
          (so : SalesOrder)
          → env.orm.sales_orders.get pk s.sales_orders ≡ some so
          → (items : List SalesOrderItem) (r : Response ⊎ List Line) (t : Session)
          → IsChecked env items s r t
          → Returns outcome (deduct_items env user so r t)
      deducted so e items (inl response) t same = inl (ap (λ u. u.db) same)
      deducted so e items (inr lines) t (same, _, _, _) =
          let key : so.id ≡ pk = env.orm.sales_orders.pk-get pk s.sales_orders so e in
          bind-Returns (λ _ u. u.sales_orders ≡ s.sales_orders) outcome
            (for_each (deduct_item env user so.id) lines) (λ _. finish_complete env so) t
            (for_each-Returns (λ u. u.sales_orders ≡ s.sales_orders) (deduct_item env user so.id)
              (deduct_item-orders user so.id s.sales_orders) lines t
              (ap (λ u. u.sales_orders) same))
            λ _ u kept.
              map-Returns (λ _ v. IsCompleted so.id v.db) outcome (finish_complete env so u)
                (λ _ v closed. inr (subst (λ k. IsCompleted k v.db) key closed))
                (finish_complete-IsCompleted so u (
                  ap (env.orm.sales_orders.get so.id) kept
                  ∙ (ap (λ k. env.orm.sales_orders.get k s.sales_orders) key ∙ e)))

  complete-replayed :
      (user : User) (pk : ℕ) (s : Session)
      → IsCompleted pk s.db
      → let (r, t) = complete env user pk s in
        (r ≡ ok (respond 409 (detail already_completed))) × (t.db ≡ s.db)
  unfolding complete complete_block get_sales_order after_complete
  complete-replayed user pk s h =
      rw (env.atomic_lem _ (complete_block env user pk) s, h.found, h.is_closed) (refl, refl)

  -- Completing is idempotent: either a call leaves the tables as they were, or the same call again
  -- is refused with 409 and leaves the tables alone, whoever makes it.
  pub complete_twice :
      (user other : User) (pk : ℕ) (s : Session)
      → let (_, t) = complete env user pk s in
        let (r, u) = complete env other pk t in
        (t.db ≡ s.db) ⊎ ((r ≡ ok (respond 409 (detail already_completed))) × (u.db ≡ t.db))
  unfolding complete
  complete_twice user other pk s =
      elim (atomic_then (λ db. (db ≡ s.db) ⊎ IsCompleted pk db) (after_complete env)
        (after_complete-IsReader env) env (complete_block env user pk) s (inl refl)
        (complete_block-IsCompleted user pk s)) [
          | inl same ↦ inl same
          | inr closed ↦ inr (complete-replayed other pk _ closed)
        ]
