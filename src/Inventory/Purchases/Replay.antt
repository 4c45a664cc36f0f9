-- ===== src/Inventory/Purchases/Replay.antt =====
-- A second `receive` of the same purchase order.
use inventra.Prelude.{
  ℕ, ◌≡◌, refl, ◌⊎◌, inl, inr, false, Bool-cases, Option-cases, none, some, List, ==_refl, subst,
  ap, ◌∙◌,
}
use inventra.Prelude.Int.{◌+ℤ◌}
use inventra.Accounts.Models.{User}
use inventra.Catalog.Models.{Product}
use inventra.Inventory.Models.{PurchaseOrder, received, PurchaseOrderItem, purchase}
use inventra.Inventory.Stock.{set_stock}
use inventra.Inventory.Stock.Rules.{get_product_bind, move_bind, quiet_last}
use inventra.Inventory.Purchases.{
  receive_item, receive_block, receive, ordered_items, is_ordered, after_receive, refresh_from_db,
  finish_receive,
}
use inventra.Inventory.Purchases.Receive.{after_receive-IsReader, notify_creator-IsQuiet}
use inventra.Notifications.Services.{check_and_notify_stock}
use inventra.Notifications.Frame.{check_and_notify_stock-IsQuiet}
use inventra.Http.{respond, detail, already_received}
use inventra.Session.{Session, Db, ok, for_each}
use inventra.Session.Outcome.{Returns, for_each-Returns, bind-Returns, map-Returns}
use inventra.Django.Env.{Env}
use inventra.Django.Atomic.{atomic_then}

module _ (env : Env) where
  -- the order is there, and it has been received
  pub record IsReceived (pk : ℕ) (db : Db) : Type 0 where
    pub po : PurchaseOrder
    pub found : env.orm.purchase_orders.get pk db.purchase_orders ≡ some po
    pub is_closed : is_ordered po.status ≡ false

  receive_item-orders :
      (user : User) (po : ℕ) (orders : List PurchaseOrder) (item : PurchaseOrderItem) (s : Session)
      → s.purchase_orders ≡ orders
      → Returns (λ _ t. t.purchase_orders ≡ orders) (receive_item env user po item s)
  unfolding receive_item
  receive_item-orders user po orders item s h =
      get_product_bind keeps env item.product _ s λ p found.
        let product : Product = set_stock (p.current_stock +ℤ item.quantity) p in
        move_bind keeps env product item.quantity purchase (some po) none user _ s (
          quiet_last keeps (check_and_notify_stock env product) _
            (check_and_notify_stock-IsQuiet env product) λ n d. h)
    where
      keeps : Unit {0} → Session → Type 0
      keeps _ t = t.purchase_orders ≡ orders

  finish_receive-IsReceived :
      (po : PurchaseOrder) (s : Session)
      → env.orm.purchase_orders.get po.id s.purchase_orders ≡ some po
      → Returns (λ _ t. IsReceived po.id t.db) (finish_receive env po s)
  unfolding finish_receive
  finish_receive-IsReceived po s e =
      let close : PurchaseOrder → PurchaseOrder =
        λ r. record r { status = received; received_at = some s.now } in
      let orders : List PurchaseOrder =
        env.orm.purchase_orders.update po.id close s.purchase_orders in
      let written : env.orm.purchase_orders.get po.id orders ≡ some (close po) =
        rw
          (
            env.orm.purchase_orders.get-update po.id close s.purchase_orders po.id (λ r. refl),
            ==_refl po.id,
            e,
          )
          refl in
      let (n, d, q) =
        notify_creator-IsQuiet env po.created_by po.id
          (record s { db = record s.db { purchase_orders = orders } }) in
      rw q (record { po = close po; found = written; is_closed = refl })

  receive_block-IsReceived :
      (user : User) (pk : ℕ) (s : Session)
      → Returns (λ _ t. (t.db ≡ s.db) ⊎ IsReceived pk t.db) (receive_block env user pk s)
  unfolding receive_block refresh_from_db
  receive_block-IsReceived user pk s =
      elim (Option-cases (env.orm.purchase_orders.get pk s.purchase_orders)) [
        | inl e ↦ rw e tt
        | inr (po, e) ↦ elim (Bool-cases (is_ordered po.status)) [
          | inr closed ↦ rw (e, closed) (inl refl)
          | inl open_ ↦
              rw (e, open_)
                (bind-Returns (λ _ t. t.purchase_orders ≡ s.purchase_orders) outcome
                  (for_each (receive_item env user po.id)
                    (ordered_items env po.id s.purchase_order_items))
                  (λ _. finish_receive env po) s
                  (for_each-Returns (λ t. t.purchase_orders ≡ s.purchase_orders)
                    (receive_item env user po.id) (receive_item-orders user po.id s.purchase_orders)
                    (ordered_items env po.id s.purchase_order_items) s refl)
                  λ _ t same.
                    let key : po.id ≡ pk =
                      env.orm.purchase_orders.pk-get pk s.purchase_orders po e in
                    map-Returns (λ _ u. IsReceived po.id u.db) outcome (finish_receive env po t)
                      (λ _ u closed. inr (subst (λ k. IsReceived k u.db) key closed))
                      (finish_receive-IsReceived po t (
                        ap (env.orm.purchase_orders.get po.id) same
                        ∙ (ap (λ k. env.orm.purchase_orders.get k s.purchase_orders) key ∙ e))))
        ]
      ]
    where
      outcome : {A : Type 0} → A → Session → Type 0
      outcome _ t = (t.db ≡ s.db) ⊎ IsReceived pk t.db

  receive-replayed :
      (user : User) (pk : ℕ) (s : Session)
      → IsReceived pk s.db
      → let (r, t) = receive env user pk s in
        (r ≡ ok (respond 409 (detail already_received))) × (t.db ≡ s.db)
  unfolding receive receive_block refresh_from_db after_receive
  receive-replayed user pk s h =
      rw (env.atomic_lem _ (receive_block env user pk) s, h.found, h.is_closed) (refl, refl)

  -- Receiving is idempotent: either a call leaves the tables as they were, or the same call again
  -- is refused with 409 and leaves the tables alone, whoever makes it.
  pub receive_twice :
      (user other : User) (pk : ℕ) (s : Session)
      → let (_, t) = receive env user pk s in
        let (r, u) = receive env other pk t in
        (t.db ≡ s.db) ⊎ ((r ≡ ok (respond 409 (detail already_received))) × (u.db ≡ t.db))
  unfolding receive
  receive_twice user other pk s =
      elim (atomic_then (λ db. (db ≡ s.db) ⊎ IsReceived pk db) (after_receive env)
        (after_receive-IsReader env) env (receive_block env user pk) s (inl refl)
        (receive_block-IsReceived user pk s)) [
          | inl same ↦ inl same
          | inr closed ↦ inr (receive-replayed other pk _ closed)
        ]
