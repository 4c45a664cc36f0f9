-- ===== src/Inventory/Sales/Balance.antt =====
-- `complete` of a sales order, the stock ledger, and overselling.
use inventra.Prelude.{
  ℕ, ◌+◌, ◌≡◌, ◌≢◌, refl, sym, inl, inr, Bool-cases, Option-cases, Option, none, some, List, [],
  ◌∷◌, map, All, arith, ◌⊎◌,
}
use inventra.Prelude.Int.{◌-ℤ◌, +ℤ_neg}
use inventra.Accounts.Models.{User}
use inventra.Catalog.Models.{Product}
use inventra.Notifications.Models.{sale_completed, has_been_completed}
use inventra.Notifications.Services.{notify, check_and_notify_stock}
use inventra.Notifications.Frame.{IsQuiet, check_and_notify_stock-IsQuiet, notify-IsQuiet}
use inventra.Inventory.Models.{SalesOrder, SalesOrderItem, InventoryTransaction, sale, completed}
use inventra.Inventory.Requests.{when_given, exists}
use inventra.Inventory.Stock.{set_stock}
use inventra.Inventory.Stock.Cases.{saved, transaction_row, recorded}
use inventra.Inventory.Stock.Rules.{move_bind, quiet_last}
use inventra.Inventory.Ledger.{IsBalanced, move-IsBalanced}
use inventra.Inventory.Sales.{is_created, get_sales_order, serialize}
use inventra.Inventory.Sales.Complete.{
  ordered_items, check_items, deduct_item, deduct_items, finish_complete, complete_block,
  after_complete, complete, invoice_digits, has_invoice,
}
use inventra.Inventory.Sales.Lines.{
  Line, IsDistinct, IsCovered, IsCurrent, IsChecked, check_items-IsChecked, update-IsCurrent,
}
use inventra.Http.{Response}
use inventra.Session.{Session, for_each}
use inventra.Session.Outcome.{Returns, bind-Returns}
use inventra.Django.Env.{Env, draw}
use inventra.Django.Atomic.{IsReader, atomic_then}

module _ (env : Env) where
  abbrev HasBalance : Session → Type 0
  HasBalance s = IsBalanced env s.products s.transactions

  pub notify_creator-IsQuiet :
      (creator : Option ℕ) (so : ℕ)
      → IsQuiet (
          when_given creator
            (λ user_id. notify env user_id sale_completed (has_been_completed so) (some so)))
  notify_creator-IsQuiet none so = λ s. (_, _, refl)
  notify_creator-IsQuiet (some u) so = notify-IsQuiet env u sale_completed _ _

  -- the table of products and the ledger stay as they are after the loops
  pub finish_complete-Returns :
      (P : List Product → List InventoryTransaction → Type 0) (so : SalesOrder) (s : Session)
      → P s.products s.transactions
      → Returns (λ _ t. P t.products t.transactions) (finish_complete env so s)
  unfolding finish_complete draw
  finish_complete-Returns P so s h =
      let digits : ℕ = invoice_digits (env.uuid4 s.draws) in
      elim (Bool-cases
        (exists env.orm.sales_orders (λ r. has_invoice so.id digits r) s.sales_orders)) [
          | inl taken ↦ rw taken tt
          | inr free ↦
              let (n, d, e) = notify_creator-IsQuiet so.created_by so.id (record s {
                db = record s.db {
                  sales_orders =
                      env.orm.sales_orders.update so.id
                        (λ r. record r {
                          status = completed;
                          invoice_number = some digits;
                          invoiced_at = some s.now;
                        })
                        s.sales_orders;
                };
                draws = s.draws + 1;
              }) in
              rw (free, e) h
        ]

  pub after_complete-IsReader : (r : Response ⊎ ℕ) → IsReader (after_complete env r)
  unfolding after_complete get_sales_order serialize
  after_complete-IsReader (inl response) s = refl
  after_complete-IsReader (inr so) s = ground arith

  deduct_item-IsBalanced :
      (user : User) (so : ℕ) (item : SalesOrderItem) (p : Product) (rest : List Line) (s : Session)
      → env.orm.products.get item.product s.products ≡ some p
      → All (λ (l : Line). l.0.product ≢ item.product) rest
      → IsCurrent env s.products rest
      → HasBalance s
      → Returns
          (λ _ t. HasBalance t × IsCurrent env t.products rest)
          (deduct_item env user so (item, p) s)
  unfolding deduct_item
  deduct_item-IsBalanced user so item p rest s found ne current h =
      let product : Product = set_stock (p.current_stock -ℤ item.quantity) p in
      let t : Session = saved env product s in
      let row : InventoryTransaction =
        transaction_row env product item.quantity sale (some so) none user t in
      let key : p.id ≡ item.product = env.orm.products.pk-get item.product s.products p found in
      move_bind keeps env product item.quantity sale (some so) none user _ s (
        quiet_last keeps (check_and_notify_stock env product) (recorded env row t)
          (check_and_notify_stock-IsQuiet env product)
          λ n d. (
            move-IsBalanced env item.product p product.current_stock row s.products s.transactions
                found refl (sym (+ℤ_neg p.current_stock item.quantity)) h,
            update-IsCurrent env p.id product.current_stock s.products rest (rw key ne) current,
          ))
    where
      keeps : Unit {0} → Session → Type 0
      keeps _ t = HasBalance t × IsCurrent env t.products rest

  deduct_loop-IsBalanced :
      (user : User) (so : ℕ) (lines : List Line) (s : Session)
      → IsDistinct (map (λ (l : Line). l.0) lines)
      → IsCurrent env s.products lines
      → HasBalance s
      → Returns (λ _ t. HasBalance t) (for_each (deduct_item env user so) lines s)
  unfolding for_each
  deduct_loop-IsBalanced user so [] s distinct current h = h
  deduct_loop-IsBalanced user so (l ∷ lines) s distinct current h =
      bind-Returns (λ _ t. HasBalance t × IsCurrent env t.products lines) (λ _ t. HasBalance t)
        (deduct_item env user so l) (λ _. for_each (deduct_item env user so) lines) s
        (deduct_item-IsBalanced user so l.0 l.1 lines s current.0 (other_lines lines distinct.0)
          current.1 h)
        λ _ t (h', current'). deduct_loop-IsBalanced user so lines t distinct.1 current' h'
    where
      other_lines :
          (ls : List Line)
          → All (λ (j : SalesOrderItem). j.product ≢ l.0.product) (map (λ (l : Line). l.0) ls)
          → All (λ (k : Line). k.0.product ≢ l.0.product) ls
      other_lines [] a = tt
      other_lines (k ∷ ls) a = (a.0, other_lines ls a.1)

  -- What the second loop keeps, given lines that the first one has checked, `complete` keeps.
  pub complete_block-Returns :
      (P : List Product → List InventoryTransaction → Type 0) (user : User) (pk : ℕ) (s : Session)
      → ((so : SalesOrder) (lines : List Line)
          → env.orm.sales_orders.get pk s.sales_orders ≡ some so
          → map (λ (l : Line). l.0) lines ≡ ordered_items env so.id s.sales_order_items
          → IsCurrent env s.products lines
          → IsCovered lines
          → Returns
              (λ _ t. P t.products t.transactions)
              (for_each (deduct_item env user so.id) lines s))
      → P s.products s.transactions
      → Returns (λ _ t. P t.products t.transactions) (complete_block env user pk s)
  unfolding complete_block get_sales_order deduct_items
  complete_block-Returns P user pk s loop h =
      elim (Option-cases (env.orm.sales_orders.get pk s.sales_orders)) [
        | inl e ↦ rw e tt
        | inr (so, e) ↦ elim (Bool-cases (is_created so.status)) [
          | inl is ↦
              let items : List SalesOrderItem = ordered_items env so.id s.sales_order_items in
              rw (e, is)
                (bind-Returns (IsChecked env items s) keeps (check_items env items)
                  (deduct_items env user so) s (check_items-IsChecked env items s)
                  λ r t c. deducted so e r t c)
          | inr is ↦ rw (e, is) h
        ]
      ]
    where
      keeps : {A : Type 0} → A → Session → Type 0
      keeps _ t = P t.products t.transactions

      deducted :
          (so : SalesOrder)
          → env.orm.sales_orders.get pk s.sales_orders ≡ some so
          → (r : Response ⊎ List Line) (t : Session)
          → IsChecked env (ordered_items env so.id s.sales_order_items) s r t
          → Returns keeps (deduct_items env user so r t)
      deducted so e (inl response) t same = rw same h
      deducted so e (inr lines) t (same, of, current, covered) = rw same (
          bind-Returns keeps keeps (for_each (deduct_item env user so.id) lines)
            (λ _. finish_complete env so) s (loop so lines e of current covered)
            λ _ u h'. finish_complete-Returns P so u h')

  pub complete-keeps :
      (P : List Product → List InventoryTransaction → Type 0) (user : User) (pk : ℕ) (s : Session)
      → P s.products s.transactions
      → Returns (λ _ t. P t.products t.transactions) (complete_block env user pk s)
      → let (_, t) = complete env user pk s in P t.products t.transactions
  unfolding complete
  complete-keeps P user pk s =
      atomic_then (λ db. P db.products db.transactions) (after_complete env) after_complete-IsReader
        env (complete_block env user pk) s

  -- Completing a sales order whose lines are of different products keeps every product's stock
  -- equal to the sum of its ledger rows, however the call ends.
  pub complete-IsBalanced :
      (user : User) (pk : ℕ) (s : Session)
      → ((so : SalesOrder)
          → env.orm.sales_orders.get pk s.sales_orders ≡ some so
          → IsDistinct (ordered_items env so.id s.sales_order_items))
      → IsBalanced env s.products s.transactions
      → let (_, t) = complete env user pk s in IsBalanced env t.products t.transactions
  complete-IsBalanced user pk s distinct h = complete-keeps (IsBalanced env) user pk s h (
      complete_block-Returns (IsBalanced env) user pk s
        (λ so lines e of current _.
          deduct_loop-IsBalanced user so.id lines s (rw of (distinct so e)) current h)
        h)
