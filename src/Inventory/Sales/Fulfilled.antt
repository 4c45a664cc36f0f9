-- ===== src/Inventory/Sales/Fulfilled.antt =====
-- A sale that can be fulfilled is completed.
use inventra.Prelude.{
  ℕ, ◌≤◌, subst, ◌≡◌, refl, ◌∙◌, ◌++◌, ap, inr, true, false, none, some, List, [], ◌∷◌, map, All,
  arith, ◌+◌,
}
use inventra.Prelude.Int.{ltb_ℤ, ◌-ℤ◌}
use inventra.Accounts.Models.{User}
use inventra.Inventory.Models.{SalesOrder, sale}
use inventra.Inventory.Stock.{
  is_integer_field, set_stock, get_product, save_stock, create_transaction,
}
use inventra.Inventory.Stock.Cases.{saved, transaction_row, recorded}
use inventra.Inventory.Sales.{get_sales_order, serialize, items_of}
use inventra.Inventory.Sales.Complete.{
  invoice_digits, has_invoice, check_items, deduct_item, finish_complete, deduct_items,
  complete_block, after_complete, complete,
}
use inventra.Inventory.Sales.Lines.{Line, IsCurrent, IsCovered}
use inventra.Inventory.Sales.Balance.{notify_creator-IsQuiet}
use inventra.Inventory.Sales.Oversell.{CanComplete}
use inventra.Inventory.Sales.Sold.{
  closed, IsDeducted, IsBeside, IsSold, deduct_loop-IsDeducted, finish_complete-IsSold,
}
use inventra.Session.Outcome.{Returns}
use inventra.Inventory.Requests.{exists}
use inventra.Notifications.Frame.{with_notifications, check_and_notify_stock-IsQuiet}
use inventra.Http.{respond, sales_order_data}
use inventra.Session.{Session, ok, for_each, bump_inventory}
use inventra.Django.Env.{Env, draw}

-- the quantity of each line, and the stock that it leaves, fit their columns
abbrev pub IsStorable : List Line → Type 0
IsStorable = All λ (l : Line).
    (is_integer_field (l.1.current_stock -ℤ l.0.quantity) ≡ true)
    × (is_integer_field l.0.quantity ≡ true)

module _ (env : Env) where
  check_items-covered :
      (lines : List Line) (s : Session)
      → IsCurrent env s.products lines
      → IsCovered lines
      → check_items env (map (λ (l : Line). l.0) lines) s ≡ (ok (inr lines), s)
  unfolding check_items get_product
  check_items-covered [] s current covered = refl
  check_items-covered ((item, p) ∷ lines) s current covered =
      let enough : ltb_ℤ p.current_stock item.quantity ≡ false = ground arith in
      rw (current.0, enough, check_items-covered lines s current.1 covered.1) refl

  deduct_item-storable :
      (user : User) (so : ℕ) (l : Line) (s : Session)
      → is_integer_field (l.1.current_stock -ℤ l.0.quantity) ≡ true
      → is_integer_field l.0.quantity ≡ true
      → (t : Session) × (deduct_item env user so l s ≡ (ok tt, t))
  unfolding deduct_item save_stock create_transaction
  deduct_item-storable user so (item, p) s stock quantity =
      let product = set_stock (p.current_stock -ℤ item.quantity) p in
      let u = saved env product s in
      let v =
        recorded env (transaction_row env product item.quantity sale (some so) none user u) u in
      let (n, d, e) = check_and_notify_stock-IsQuiet env product v in
      (with_notifications v n d, rw (stock, quantity, e) refl)

  deduct_loop-storable :
      (user : User) (so : ℕ) (lines : List Line) (s : Session)
      → IsStorable lines
      → (t : Session) × (for_each (deduct_item env user so) lines s ≡ (ok tt, t))
  unfolding for_each
  deduct_loop-storable user so [] s h = (s, refl)
  deduct_loop-storable user so (l ∷ lines) s ((stock, quantity), h) =
      let (t, e) = deduct_item-storable user so l s stock quantity in
      let (u, e') = deduct_loop-storable user so lines t h in (u, rw (e, e') refl)

  finish_complete-free :
      (so : SalesOrder) (s : Session)
      → exists env.orm.sales_orders
          (λ r. has_invoice so.id (invoice_digits (env.uuid4 s.draws)) r)
          s.sales_orders
        ≡ false
      → (t : Session) × (finish_complete env so s ≡ (ok (inr so.id), t))
        × (t.sales_order_items ≡ s.sales_order_items)
  unfolding finish_complete draw
  finish_complete-free so s free =
      let orders =
        env.orm.sales_orders.update so.id (λ r. closed env r (env.uuid4 s.draws) s.now)
          s.sales_orders in
      let v = record s { db = record s.db { sales_orders = orders }; draws = s.draws + 1 } in
      let (n, d, q) = notify_creator-IsQuiet env so.created_by so.id v in
      (
        record (with_notifications v n d) { on_commit = v.on_commit ++ bump_inventory ∷ [] },
        rw (free, q) refl,
        refl,
      )

  -- the loop and the rest of the block return, and the sale is made
  complete_lines :
      (user : User) (so : SalesOrder) (lines : List Line) (s : Session)
      → env.orm.sales_orders.get so.id s.sales_orders ≡ some so
      → IsStorable lines
      → ((n : ℕ)
          → s.draws ≤ n
          → exists env.orm.sales_orders
              (λ r. has_invoice so.id (invoice_digits (env.uuid4 n)) r)
              s.sales_orders
            ≡ false)
      → (u : Session) × IsSold env so lines s u.db
        × (deduct_items env user so (inr lines) s ≡ (ok (inr so.id), u))
        × (u.sales_order_items ≡ s.sales_order_items)
  unfolding deduct_items
  complete_lines user so lines s found storable unused =
      let (t, e) = deduct_loop-storable user so.id lines s storable in
      let made : IsDeducted env lines s.db t.db × IsBeside env s t =
        subst (Returns (λ _ v. IsDeducted env lines s.db v.db × IsBeside env s v)) e
          (deduct_loop-IsDeducted env user so.id lines s) in
      let beside = made.1 in
      let (u, e', items) = finish_complete-free so t (
        ap
          (exists env.orm.sales_orders
            (λ r. has_invoice so.id (invoice_digits (env.uuid4 t.draws)) r))
          beside.orders
        ∙ unused t.draws beside.later) in
      let done : IsSold env so lines s u.db =
        subst (Returns (λ _ v. IsSold env so lines s v.db)) e'
          (finish_complete-IsSold env so lines s t found made.0 beside) in
      (u, done, rw (e, e') refl, items ∙ beside.items)

  -- A sale that can be fulfilled is: let the order be open, with every line within the stock of its
  -- product and every new stock and quantity in the range of its column, and let no other order
  -- have an invoice number that an identifier drawn from then on gives. Then `complete` answers 200
  -- with the completed order and its lines, the ledger of every product has gone down by all that
  -- the lines sell of it, the stock of every product is what the last line of it leaves, if there
  -- is one, and the table has the order as it was answered.
  pub complete_fulfilled :
      (user : User) (pk : ℕ) (s : Session) (can : CanComplete env pk s)
      → IsStorable can.lines
      → ((n : ℕ)
          → s.draws ≤ n
          → exists env.orm.sales_orders
              (λ r. has_invoice can.so.id (invoice_digits (env.uuid4 n)) r)
              s.sales_orders
            ≡ false)
      → (t : Session) × (made : IsSold env can.so can.lines s t.db) × (complete env user pk s ≡ (
        ok (
            respond 200 (
              sales_order_data
                (closed env can.so (env.uuid4 made.draws) s.now)
                (items_of env can.so.id s.sales_order_items))),
        t,
      ))
  unfolding complete complete_block get_sales_order after_complete serialize
  complete_fulfilled user pk s can storable unused =
      let key : can.so.id ≡ pk = env.orm.sales_orders.pk-get pk s.sales_orders can.so can.found in
      let there : env.orm.sales_orders.get can.so.id s.sales_orders ≡ some can.so =
        ap (λ k. env.orm.sales_orders.get k s.sales_orders) key ∙ can.found in
      let (u, made, e, items) = complete_lines user can.so can.lines s there storable unused in
      let checked = check_items-covered can.lines s can.current can.covered in
      let written = made.order in
      (
        record u { ran = u.ran ++ u.on_commit; on_commit = [] },
        record {
          deducted = made.deducted;
          draws = made.draws;
          is_new = made.is_new;
          order = made.order;
        },
        rw
            (
              env.atomic_lem _ (complete_block env user pk) s,
              can.found,
              can.is_open,
              ← can.all_lines,
              checked,
              e,
              written,
              ap (items_of env can.so.id) items,
            )
            refl,
      )
