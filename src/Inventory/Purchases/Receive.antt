-- ===== src/Inventory/Purchases/Receive.antt =====
-- `receive` of a purchase order and the stock ledger.
use inventra.Prelude.{
  ℕ, refl, inl, inr, arith, Bool-cases, Option-cases, Option, none, some, List, ◌⊎◌,
}
use inventra.Prelude.Int.{◌+ℤ◌}
use inventra.Accounts.Models.{User}
use inventra.Catalog.Models.{Product}
use inventra.Inventory.Models.{
  PurchaseOrder, received, PurchaseOrderItem, InventoryTransaction, purchase,
}
use inventra.Inventory.Stock.{set_stock}
use inventra.Inventory.Stock.Cases.{saved, transaction_row, recorded}
use inventra.Inventory.Stock.Rules.{get_product_bind, move_bind, quiet_last}
use inventra.Inventory.Ledger.{IsBalanced, move-IsBalanced}
use inventra.Inventory.Purchases.{
  receive_item, receive_block, receive, ordered_items, is_ordered, after_receive, refresh_from_db,
  finish_receive, serialize,
}
use inventra.Notifications.Services.{notify, check_and_notify_stock}
use inventra.Notifications.Models.{purchase_completed, has_been_received}
use inventra.Notifications.Frame.{IsQuiet, check_and_notify_stock-IsQuiet, notify-IsQuiet}
use inventra.Inventory.Requests.{when_given}
use inventra.Http.{Response}
use inventra.Session.{Session, for_each}
use inventra.Session.Outcome.{Returns, for_each-Returns, bind-Returns}
use inventra.Django.Env.{Env}
use inventra.Django.Atomic.{IsReader, atomic_then}

module _ (env : Env) where
  abbrev HasBalance : Session → Type 0
  HasBalance s = IsBalanced env s.products s.transactions

  receive_item-IsBalanced :
      (user : User) (po : ℕ) (item : PurchaseOrderItem) (s : Session)
      → HasBalance s
      → Returns (λ _ t. HasBalance t) (receive_item env user po item s)
  unfolding receive_item
  receive_item-IsBalanced user po item s h = get_product_bind keeps env item.product _ s λ p found.
      let product : Product = set_stock (p.current_stock +ℤ item.quantity) p in
      let t : Session = saved env product s in
      let row : InventoryTransaction =
        transaction_row env product item.quantity purchase (some po) none user t in
      move_bind keeps env product item.quantity purchase (some po) none user _ s (
        quiet_last keeps (check_and_notify_stock env product) (recorded env row t)
          (check_and_notify_stock-IsQuiet env product)
          λ n d.
            move-IsBalanced env item.product p product.current_stock row s.products s.transactions
              found refl refl h)
    where
      keeps : Unit {0} → Session → Type 0
      keeps _ t = HasBalance t

  pub notify_creator-IsQuiet :
      (creator : Option ℕ) (po : ℕ)
      → IsQuiet (
          when_given creator
            (λ user_id. notify env user_id purchase_completed (has_been_received po) (some po)))
  notify_creator-IsQuiet none po = λ s. (_, _, refl)
  notify_creator-IsQuiet (some u) po = notify-IsQuiet env u purchase_completed _ _

  finish_receive-IsBalanced :
      (po : PurchaseOrder) (s : Session)
      → HasBalance s
      → Returns (λ _ t. HasBalance t) (finish_receive env po s)
  unfolding finish_receive
  finish_receive-IsBalanced po s h =
      let (n, d, e) = notify_creator-IsQuiet po.created_by po.id (record s {
        db = record s.db {
          purchase_orders =
              env.orm.purchase_orders.update po.id
                (λ r. record r { status = received; received_at = some s.now }) s.purchase_orders;
        };
      }) in
      rw e h

  receive_block-IsBalanced :
      (user : User) (pk : ℕ) (s : Session)
      → HasBalance s
      → Returns (λ _ t. HasBalance t) (receive_block env user pk s)
  unfolding receive_block refresh_from_db
  receive_block-IsBalanced user pk s h =
      elim (Option-cases (env.orm.purchase_orders.get pk s.purchase_orders)) [
        | inl e ↦ rw e tt
        | inr (po, e) ↦ elim (Bool-cases (is_ordered po.status)) [
          | inl is ↦
              let items : List PurchaseOrderItem = ordered_items env po.id s.purchase_order_items in
              rw (e, is)
                (bind-Returns (λ _ t. HasBalance t) (λ _ t. HasBalance t)
                  (for_each (receive_item env user po.id) items) (λ _. finish_receive env po) s
                  (for_each-Returns HasBalance (receive_item env user po.id)
                    (receive_item-IsBalanced user po.id) items s h)
                  λ _ t h'. finish_receive-IsBalanced po t h')
          | inr is ↦ rw (e, is) h
        ]
      ]

  pub after_receive-IsReader : (r : Response ⊎ ℕ) → IsReader (after_receive env r)
  unfolding after_receive refresh_from_db serialize
  after_receive-IsReader (inl response) s = refl
  after_receive-IsReader (inr po) s = ground arith

  -- Receiving a purchase order keeps every product's stock equal to the sum of its ledger rows,
  -- whatever the order holds and however the call ends.
  pub receive-IsBalanced :
      (user : User) (pk : ℕ) (s : Session)
      → IsBalanced env s.products s.transactions
      → let (_, t) = receive env user pk s in IsBalanced env t.products t.transactions
  unfolding receive
  receive-IsBalanced user pk s h =
      atomic_then (λ db. IsBalanced env db.products db.transactions) (after_receive env)
        after_receive-IsReader env (receive_block env user pk) s h
        (receive_block-IsBalanced user pk s h)
