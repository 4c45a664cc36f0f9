-- ===== src/Inventory/Sales/Oversell.antt =====
-- `complete` never sells what is not there, and sells all lines or none.
use inventra.Prelude.{
  ℕ, ap, ◌∙◌, ◌≡◌, refl, inl, inr, true, Bool-cases, Option-cases, none, some, List, [], ◌∷◌, map,
  arith, ◌⊎◌,
}
use inventra.Prelude.Int.{ℤ, pos, ◌-ℤ◌, ◌≤ℤ◌, int_laws}
use inventra.Accounts.Models.{User}
use inventra.Catalog.Models.{Product}
use inventra.Notifications.Services.{check_and_notify_stock}
use inventra.Notifications.Frame.{check_and_notify_stock-IsQuiet}
use inventra.Inventory.Models.{SalesOrder, SalesOrderItem, InventoryTransaction, sale}
use inventra.Inventory.Stock.{set_stock}
use inventra.Inventory.Stock.Cases.{saved, transaction_row, recorded}
use inventra.Inventory.Stock.Rules.{move_bind, quiet_last}
use inventra.Inventory.Ledger.{get-set_stock}
use inventra.Inventory.Sales.{is_created, get_sales_order}
use inventra.Inventory.Sales.Complete.{
  ordered_items, check_items, deduct_item, finish_complete, deduct_items, complete_block,
  after_complete, complete,
}
use inventra.Inventory.Sales.Lines.{Line, IsCovered, IsCurrent, IsChecked, check_items-IsChecked}
use inventra.Inventory.Sales.Balance.{
  complete_block-Returns, complete-keeps, after_complete-IsReader,
}
use inventra.Inventory.Sales.Sold.{
  IsDeducted, IsBeside, IsSold, deduct_loop-IsDeducted, finish_complete-IsSold,
}
use inventra.Http.{Response}
use inventra.Session.{Session, Db, for_each}
use inventra.Session.Outcome.{Returns, bind-Returns, map-Returns}
use inventra.Django.Env.{Env}
use inventra.Django.Atomic.{atomic_then}

module _ (env : Env) where
  -- no product's stock is below zero
  abbrev pub IsStocked : List Product → Type 0
  IsStocked products =
      (k : ℕ) (p : Product) → env.orm.products.get k products ≡ some p → pos 0 ≤ℤ p.current_stock

  pub update-IsStocked :
      (j : ℕ) (v : ℤ) (products : List Product)
      → pos 0 ≤ℤ v
      → IsStocked products
      → IsStocked (env.orm.products.update j (set_stock v) products)
  update-IsStocked j v products nonneg h k q e = ground (
    arith,
    get-set_stock env j k v products,
    h k q,
    Option-cases (env.orm.products.get k products),
  )

  deduct_item-IsStocked :
      (user : User) (so : ℕ) (item : SalesOrderItem) (p : Product) (s : Session)
      → item.quantity ≤ℤ p.current_stock
      → IsStocked s.products
      → Returns (λ _ t. IsStocked t.products) (deduct_item env user so (item, p) s)
  unfolding deduct_item
  deduct_item-IsStocked user so item p s covered h =
      let product : Product = set_stock (p.current_stock -ℤ item.quantity) p in
      let t : Session = saved env product s in
      let row : InventoryTransaction =
        transaction_row env product item.quantity sale (some so) none user t in
      move_bind keeps env product item.quantity sale (some so) none user _ s (
        quiet_last keeps (check_and_notify_stock env product) (recorded env row t)
          (check_and_notify_stock-IsQuiet env product)
          λ n d. update-IsStocked p.id product.current_stock s.products (omega int_laws) h)
    where
      keeps : Unit {0} → Session → Type 0
      keeps _ t = IsStocked t.products

  deduct_loop-IsStocked :
      (user : User) (so : ℕ) (lines : List Line) (s : Session)
      → IsCovered lines
      → IsStocked s.products
      → Returns (λ _ t. IsStocked t.products) (for_each (deduct_item env user so) lines s)
  unfolding for_each
  deduct_loop-IsStocked user so [] s covered h = h
  deduct_loop-IsStocked user so (l ∷ lines) s covered h =
      bind-Returns (λ _ t. IsStocked t.products) (λ _ t. IsStocked t.products)
        (deduct_item env user so l) (λ _. for_each (deduct_item env user so) lines) s
        (deduct_item-IsStocked user so l.0 l.1 s covered.0 h)
        λ _ t h'. deduct_loop-IsStocked user so lines t covered.1 h'

  -- Completing a sales order leaves no product's stock below zero, if none was below zero before.
  pub complete-IsStocked :
      (user : User) (pk : ℕ) (s : Session)
      → IsStocked s.products
      → let (_, t) = complete env user pk s in IsStocked t.products
  complete-IsStocked user pk s h =
      complete-keeps env (λ products _. IsStocked products) user pk s h
        (complete_block-Returns env (λ products _. IsStocked products) user pk s
          (λ so lines e of current covered. deduct_loop-IsStocked user so.id lines s covered h) h)

  -- the order is open, and every one of its lines is of a product with enough stock
  pub record CanComplete (pk : ℕ) (s : Session) : Type 0 where
    pub so : SalesOrder
    pub lines : List Line
    pub found : env.orm.sales_orders.get pk s.sales_orders ≡ some so
    pub is_open : is_created so.status ≡ true
    pub all_lines : map (λ (l : Line). l.0) lines ≡ ordered_items env so.id s.sales_order_items
    pub current : IsCurrent env s.products lines
    pub covered : IsCovered lines

  -- the tables are as they were, or all lines of an order that can be completed are sold
  abbrev IsAllOrNothing : ℕ → Session → Db → Type 0
  IsAllOrNothing pk s db =
      (db ≡ s.db) ⊎ ((can : CanComplete pk s) × IsSold env can.so can.lines s db)

  complete_block-IsAllOrNothing :
      (user : User) (pk : ℕ) (s : Session)
      → Returns (λ _ t. IsAllOrNothing pk s t.db) (complete_block env user pk s)
  unfolding complete_block get_sales_order deduct_items
  complete_block-IsAllOrNothing user pk s =
      elim (Option-cases (env.orm.sales_orders.get pk s.sales_orders)) [
        | inl e ↦ rw e tt
        | inr (so, e) ↦ elim (Bool-cases (is_created so.status)) [
          | inl is ↦
              let items : List SalesOrderItem = ordered_items env so.id s.sales_order_items in
              rw (e, is)
                (bind-Returns (IsChecked env items s) outcome (check_items env items)
                  (deduct_items env user so) s (check_items-IsChecked env items s)
                  λ r t c. decided so e is r t c)
          | inr is ↦ rw (e, is) (inl refl)
        ]
      ]
    where
      outcome : {A : Type 0} → A → Session → Type 0
      outcome _ t = IsAllOrNothing pk s t.db

      decided :
          (so : SalesOrder)
          → env.orm.sales_orders.get pk s.sales_orders ≡ some so
          → is_created so.status ≡ true
          → (r : Response ⊎ List Line) (t : Session)
          → IsChecked env (ordered_items env so.id s.sales_order_items) s r t
          → Returns outcome (deduct_items env user so r t)
      decided so e is (inl response) t same = rw same (inl refl)
      decided so e is (inr lines) t (same, of, current, covered) =
          let can : CanComplete pk s = record {
            so = so;
            lines = lines;
            found = e;
            is_open = is;
            all_lines = of;
            current = current;
            covered = covered;
          } in
          let key = env.orm.sales_orders.pk-get pk s.sales_orders so e in
          let there = ap (λ k. env.orm.sales_orders.get k s.sales_orders) key ∙ e in
          rw same (
            bind-Returns (λ _ v. IsDeducted env lines s.db v.db × IsBeside env s v) outcome
              (for_each (deduct_item env user so.id) lines) (λ _. finish_complete env so) s
              (deduct_loop-IsDeducted env user so.id lines s)
              λ _ v (deducted, beside).
                map-Returns (λ _ u. IsSold env so lines s u.db) outcome (finish_complete env so v)
                  (λ _ u made. inr (can, made))
                  (finish_complete-IsSold env so lines s v there deducted beside))

  -- A sale is all or nothing. Either `complete` leaves the tables as they were; or the order was
  -- open and every one of its lines asked for at most the stock of its product, and then the ledger
  -- of every product has gone down by all that the lines sell of it, the stock of every product is
  -- what the last line of it leaves, if there is one, and what it was if there is none, and the
  -- order is completed with an invoice number of a new identifier.
  pub complete_all_or_nothing :
      (user : User) (pk : ℕ) (s : Session)
      → let (_, t) = complete env user pk s in
        (t.db ≡ s.db) ⊎ ((can : CanComplete pk s) × IsSold env can.so can.lines s t.db)
  unfolding complete
  complete_all_or_nothing user pk s =
      atomic_then (IsAllOrNothing pk s) (after_complete env) (after_complete-IsReader env) env
        (complete_block env user pk) s (inl refl) (complete_block-IsAllOrNothing user pk s)
