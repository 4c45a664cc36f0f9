-- ===== src/Inventory/Sales/Sold.antt =====
-- What a sale has made of the tables when `complete` has gone through: the stock of its lines, their
-- ledger rows and the order.
use inventra.Prelude.{
  ℕ, none, true, false, ◌⊎◌, ◌+◌, ◌≤◌, ◌≡◌, refl, ap, ◌∙◌, inl, inr, Bool-cases, some, List, [],
  ◌∷◌, ◌==◌, sum_by, if◌then◌else◌, ==_refl, arith,
}
use inventra.Prelude.Int.{ℤ, pos, ◌-ℤ◌, ◌+ℤ◌, int_laws}
use inventra.Accounts.Models.{User}
use inventra.Catalog.Models.{Product}
use inventra.Notifications.Frame.{check_and_notify_stock-IsQuiet, check_and_notify_stock-draws}
use inventra.Inventory.Models.{SalesOrder, InventoryTransaction, completed, sale}
use inventra.Inventory.Requests.{exists}
use inventra.Inventory.Stock.{set_stock, balance}
use inventra.Inventory.Stock.Cases.{saved, transaction_row, recorded}
use inventra.Inventory.Stock.Rules.{move_bind}
use inventra.Inventory.Ledger.{balance-insert, get-set_stock}
use inventra.Inventory.Sales.Complete.{invoice_digits, has_invoice, deduct_item, finish_complete}
use inventra.Inventory.Sales.Lines.{Line}
use inventra.Inventory.Sales.Balance.{notify_creator-IsQuiet}
use inventra.Session.{Session, Db, for_each}
use inventra.Session.Outcome.{Returns, bind-Returns, map-Returns}
use inventra.Django.Env.{Env, draw}

-- how much of a product the lines sell together
unfoldable pub sold : ℕ → List Line → ℤ
unfolding sum_by
sold k = sum_by (λ (l : Line). if l.1.id == k then l.0.quantity else pos 0)

-- the stock of a product after the lines: that which its last line leaves of what was read
abbrev pub stock_after : ℕ → ℤ → List Line → ℤ
stock_after k v [] = v
stock_after k v (l ∷ ls) =
    stock_after k (if k == l.1.id then l.1.current_stock -ℤ l.0.quantity else v) ls

-- the order as `complete` leaves it, with the invoice number of an identifier
abbrev pub closed : Env → SalesOrder → ℕ → ℕ → SalesOrder
closed env so uuid now = record so {
  status = completed;
  invoice_number = some (invoice_digits uuid);
  invoiced_at = some now;
}

module _ (env : Env) where
  -- the ledger and the stock of every product after the lines, by what they were before
  pub record IsDeducted (lines : List Line) (s t : Db) : Type 0 where
    pub ledger : (k : ℕ) → balance k t.transactions ≡ balance k s.transactions -ℤ sold k lines
    pub stock :
        (k : ℕ) (p : Product)
        → env.orm.products.get k s.products ≡ some p
        → env.orm.products.get k t.products
          ≡ some (set_stock (stock_after k p.current_stock lines) p)

  -- the loop leaves the orders and the clock alone, and draws identifiers
  pub record IsBeside (s t : Session) : Type 0 where
    pub orders : t.sales_orders ≡ s.sales_orders
    pub items : t.sales_order_items ≡ s.sales_order_items
    pub clock : t.now ≡ s.now
    pub later : s.draws ≤ t.draws

  -- the sale is made: all lines are deducted, and the order is closed with a new identifier
  pub record IsSold (so : SalesOrder) (lines : List Line) (s : Session) (t : Db) : Type 0 where
    pub deducted : IsDeducted lines s.db t
    pub draws : ℕ
    pub is_new : s.draws ≤ draws
    pub order :
        env.orm.sales_orders.get so.id t.sales_orders ≡ some (closed env so (env.uuid4 draws) s.now)

  -- one line, by what it writes
  record IsMoved (l : Line) (s t : Session) : Type 0 where
    ledger :
        (k : ℕ)
        → balance k t.transactions
          ≡ balance k s.transactions -ℤ (if l.1.id == k then l.0.quantity else pos 0)
    products :
        t.products
        ≡ env.orm.products.update l.1.id (set_stock (l.1.current_stock -ℤ l.0.quantity)) s.products
    beside : IsBeside s t

  insert-sale :
      (k : ℕ) (row : InventoryTransaction) (ts : List InventoryTransaction)
      → row.transaction_type ≡ sale
      → balance k (env.orm.transactions.insert row ts)
        ≡ balance k ts -ℤ (if row.product == k then row.quantity else pos 0)
  insert-sale k row ts of_sale =
      balance-insert env k row ts ∙ elim (Bool-cases (row.product == k)) [
        | inl e ↦ rw (e, of_sale) (omega int_laws)
        | inr e ↦ rw e (omega int_laws)
      ]

  deduct_item-IsMoved :
      (user : User) (so : ℕ) (l : Line) (s : Session)
      → Returns (λ _ t. IsMoved l s t) (deduct_item env user so l s)
  unfolding deduct_item
  deduct_item-IsMoved user so (item, p) s =
      let product : Product = set_stock (p.current_stock -ℤ item.quantity) p in
      let t : Session = saved env product s in
      let row : InventoryTransaction =
        transaction_row env product item.quantity sale (some so) none user t in
      let v : Session = recorded env row t in
      let le = check_and_notify_stock-draws env product v in
      let (n, d, e) = check_and_notify_stock-IsQuiet env product v in
      let bound : s.draws + 1 ≤ d = rw e at le in
      move_bind (λ _ u. IsMoved (item, p) s u) env product item.quantity sale (some so) none user _
        s
        (rw e (record {
          ledger = λ k. insert-sale k row s.transactions refl;
          products = refl;
          beside = record { orders = refl; items = refl; clock = refl; later = omega arith };
        }))

  IsDeducted-cons :
      (l : Line) (ls : List Line) (s t u : Session)
      → IsMoved l s t
      → IsDeducted ls t.db u.db
      → IsDeducted (l ∷ ls) s.db u.db
  unfolding sold sum_by
  IsDeducted-cons l ls s t u first rest = record {
    ledger = λ k.
        rest.ledger k
        ∙ ap (λ b. b -ℤ sold k ls) (first.ledger k)
        ∙ minus_twice (balance k s.transactions) (if l.1.id == k then l.0.quantity else pos 0)
            (sold k ls);
    stock = λ k p found. after k p found (Bool-cases (k == l.1.id));
  }
    where
      minus_twice : (a b c : ℤ) → a -ℤ b -ℤ c ≡ a -ℤ (b +ℤ c)
      minus_twice a b c = omega int_laws

      after :
          (k : ℕ) (p : Product)
          → env.orm.products.get k s.products ≡ some p
          → ((k == l.1.id) ≡ true) ⊎ ((k == l.1.id) ≡ false)
          → env.orm.products.get k u.products
            ≡ some (set_stock (stock_after k p.current_stock (l ∷ ls)) p)
      after k p found (inl same) =
          let x = l.1.current_stock -ℤ l.0.quantity in
          let at : env.orm.products.get k t.products ≡ some (set_stock x p) =
            ap (env.orm.products.get k) first.products
            ∙ get-set_stock env l.1.id k x s.products
            ∙ rw (same, found) refl in
          rw same (rest.stock k (set_stock x p) at)
      after k p found (inr other) =
          let x = l.1.current_stock -ℤ l.0.quantity in
          let at : env.orm.products.get k t.products ≡ some p =
            ap (env.orm.products.get k) first.products
            ∙ get-set_stock env l.1.id k x s.products
            ∙ rw (other, found) refl in
          rw other (rest.stock k p at)

  IsBeside-trans : (s t u : Session) → IsBeside s t → IsBeside t u → IsBeside s u
  IsBeside-trans s t u h h' = record {
    orders = h'.orders ∙ h.orders;
    items = h'.items ∙ h.items;
    clock = h'.clock ∙ h.clock;
    later = let a = h.later in let b = h'.later in omega arith;
  }

  pub deduct_loop-IsDeducted :
      (user : User) (so : ℕ) (lines : List Line) (s : Session)
      → Returns
          (λ _ t. IsDeducted lines s.db t.db × IsBeside s t)
          (for_each (deduct_item env user so) lines s)
  unfolding for_each sold sum_by
  deduct_loop-IsDeducted user so [] s = (
    record { ledger = λ k. omega int_laws; stock = λ k p found. found },
    record { orders = refl; items = refl; clock = refl; later = omega arith },
  )
  deduct_loop-IsDeducted user so (l ∷ lines) s =
      bind-Returns (λ _ t. IsMoved l s t) (λ _ u. IsDeducted (l ∷ lines) s.db u.db × IsBeside s u)
        (deduct_item env user so l) (λ _. for_each (deduct_item env user so) lines) s
        (deduct_item-IsMoved user so l s)
        λ _ t first.
          map-Returns (λ _ u. IsDeducted lines t.db u.db × IsBeside t u)
            (λ _ u. IsDeducted (l ∷ lines) s.db u.db × IsBeside s u)
            (for_each (deduct_item env user so) lines t)
            (λ _ u (rest, beside).
              (IsDeducted-cons l lines s t u first rest, IsBeside-trans s t u first.beside beside))
            (deduct_loop-IsDeducted user so lines t)

  -- after the loop, the rest of `complete` makes the sale
  pub finish_complete-IsSold :
      (so : SalesOrder) (lines : List Line) (s t : Session)
      → env.orm.sales_orders.get so.id s.sales_orders ≡ some so
      → IsDeducted lines s.db t.db
      → IsBeside s t
      → Returns (λ _ u. IsSold so lines s u.db) (finish_complete env so t)
  unfolding finish_complete draw
  finish_complete-IsSold so lines s t found deducted beside =
      let uuid = env.uuid4 t.draws in
      let close : SalesOrder → SalesOrder = λ r. closed env r uuid t.now in
      let orders = env.orm.sales_orders.update so.id close t.sales_orders in
      let there : env.orm.sales_orders.get so.id t.sales_orders ≡ some so =
        ap (env.orm.sales_orders.get so.id) beside.orders ∙ found in
      let written : env.orm.sales_orders.get so.id orders ≡ some (close so) =
        rw
          (
            env.orm.sales_orders.get-update so.id close t.sales_orders so.id (λ r. refl),
            ==_refl so.id,
            there,
          )
          refl in
      elim (Bool-cases (
        exists env.orm.sales_orders (λ r. has_invoice so.id (invoice_digits uuid) r)
          t.sales_orders)) [
            | inl taken ↦ rw taken tt
            | inr free ↦
                let (n, d, q) =
                  notify_creator-IsQuiet env so.created_by so.id (record t {
                    db = record t.db { sales_orders = orders };
                    draws = t.draws + 1;
                  }) in
                rw (free, q)
                  (record {
                    deducted = record { ledger = deducted.ledger; stock = deducted.stock };
                    draws = t.draws;
                    is_new = beside.later;
                    order = written ∙ ap (λ now. some (closed env so uuid now)) beside.clock;
                  })
          ]
