-- ===== src/Inventory/Sales/Repeated.antt =====
-- What `complete` does to an order with two lines of one product: each line is checked against, and
-- deducted from, the stock as it was before the sale.
use inventra.Prelude.{
  ℕ, ◌≡◌, refl, ap, ◌∙◌, inl, inr, none, some, List, [], ◌∷◌, map, arith, ◌⊎◌, ==_refl,
}
use inventra.Prelude.Int.{ℤ, ◌-ℤ◌, int_laws}
use inventra.Accounts.Models.{User}
use inventra.Catalog.Models.{Product}
use inventra.Notifications.Services.{check_and_notify_stock}
use inventra.Notifications.Frame.{check_and_notify_stock-IsQuiet}
use inventra.Inventory.Models.{SalesOrder, SalesOrderItem, InventoryTransaction, sale}
use inventra.Inventory.Stock.{set_stock, balance}
use inventra.Inventory.Stock.Cases.{saved, transaction_row, recorded}
use inventra.Inventory.Stock.Rules.{move_bind, quiet_last}
use inventra.Inventory.Ledger.{balance-insert, get-set_stock}
use inventra.Inventory.Sales.Complete.{ordered_items, deduct_item, complete}
use inventra.Inventory.Sales.Lines.{Line, IsCurrent}
use inventra.Inventory.Sales.Balance.{complete_block-Returns, complete-keeps}
use inventra.Session.{Session, for_each, pure}
use inventra.Session.Outcome.{Returns, bind-Returns, map-Returns}
use inventra.Django.Env.{Env}

module _ (env : Env) where
  -- what a line of product `k` writes: the stock that was read less the quantity, and a ledger row
  abbrev IsDeducted : ℕ → ℤ → ℤ → Session → Session → Type 0
  IsDeducted k stock quantity s t =
      (t.products ≡ env.orm.products.update k (set_stock (stock -ℤ quantity)) s.products)
      × (balance k t.transactions ≡ balance k s.transactions -ℤ quantity)

  deduct_item-IsDeducted :
      (user : User) (so : ℕ) (item : SalesOrderItem) (p : Product) (s : Session)
      → Returns
          (λ _ t. IsDeducted p.id p.current_stock item.quantity s t)
          (deduct_item env user so (item, p) s)
  unfolding deduct_item
  deduct_item-IsDeducted user so item p s =
      let product : Product = set_stock (p.current_stock -ℤ item.quantity) p in
      let row : InventoryTransaction =
        transaction_row env product item.quantity sale (some so) none user (saved env product s) in
      move_bind keeps env product item.quantity sale (some so) none user _ s (
        quiet_last keeps (check_and_notify_stock env product)
          (recorded env row (saved env product s)) (check_and_notify_stock-IsQuiet env product)
          λ n d.
            (refl, balance-insert env p.id row s.transactions ∙ rw (==_refl p.id) (omega int_laws)))
    where
      keeps : Unit {0} → Session → Type 0
      keeps _ t = IsDeducted p.id p.current_stock item.quantity s t

  -- the stock and the ledger of product `k` after both lines
  abbrev IsTwiceSold :
      ℕ → Product → ℤ → ℤ → Session → List Product → List InventoryTransaction → Type 0
  IsTwiceSold k p first second s products transactions =
      (env.orm.products.get k products ≡ some (set_stock (p.current_stock -ℤ second) p))
      × (balance k transactions ≡ balance k s.transactions -ℤ first -ℤ second)

  both_lines :
      (user : User) (so : ℕ) (i j : SalesOrderItem) (p : Product) (k : ℕ) (s : Session)
      → p.id ≡ k
      → env.orm.products.get k s.products ≡ some p
      → Returns
          (λ _ t. IsTwiceSold k p i.quantity j.quantity s t.products t.transactions)
          (for_each (deduct_item env user so) ((i, p) ∷ (j, p) ∷ []) s)
  unfolding for_each
  both_lines user so i j p k s key found =
      bind-Returns (λ _ t. IsDeducted k p.current_stock i.quantity s t) twice
        (deduct_item env user so (i, p)) (λ _. for_each (deduct_item env user so) ((j, p) ∷ [])) s
        (rw (← key) (deduct_item-IsDeducted user so i p s))
        λ _ t first.
          bind-Returns (λ _ u. IsDeducted k p.current_stock j.quantity t u) twice
            (deduct_item env user so (j, p)) (λ _. pure tt) t
            (rw (← key) (deduct_item-IsDeducted user so j p t))
            λ _ u second. (
              ground (
                arith,
                get-set_stock env k k (p.current_stock -ℤ j.quantity) t.products,
                get-set_stock env k k (p.current_stock -ℤ i.quantity) s.products,
              ),
              second.1 ∙ ap (λ b. b -ℤ j.quantity) first.1,
            )
    where
      twice : Unit {0} → Session → Type 0
      twice _ t = IsTwiceSold k p i.quantity j.quantity s t.products t.transactions

  repeated_loop :
      (user : User) (so : ℕ) (i j : SalesOrderItem) (p : Product) (s : Session) (lines : List Line)
      → i.product ≡ j.product
      → env.orm.products.get i.product s.products ≡ some p
      → map (λ (l : Line). l.0) lines ≡ i ∷ j ∷ []
      → IsCurrent env s.products lines
      → Returns
          (λ _ t. IsTwiceSold i.product p i.quantity j.quantity s t.products t.transactions)
          (for_each (deduct_item env user so) lines s)
  repeated_loop user so i j p s (l ∷ m ∷ []) same found of current =
      let key : p.id ≡ i.product = env.orm.products.pk-get i.product s.products p found in
      let first : l ≡ (i, p) = ground arith in
      let second : m ≡ (j, p) = ground arith in
      rw (first, second) (both_lines user so i j p i.product s key found)
  repeated_loop user so i j p s [] same found of current = cc
  repeated_loop user so i j p s (l ∷ []) same found of current = cc
  repeated_loop user so i j p s (l ∷ m ∷ n ∷ lines) same found of current = cc

  -- An order with two lines of one product, both within its stock, is completed wrongly: unless the
  -- call leaves the tables alone, the stock afterwards lacks only the second line's quantity, while
  -- the ledger takes off both.
  pub complete-repeated :
      (user : User) (pk : ℕ) (s : Session) (so : SalesOrder) (i j : SalesOrderItem) (p : Product)
      → env.orm.sales_orders.get pk s.sales_orders ≡ some so
      → ordered_items env so.id s.sales_order_items ≡ i ∷ j ∷ []
      → i.product ≡ j.product
      → env.orm.products.get i.product s.products ≡ some p
      → let (_, t) = complete env user pk s in
        ((t.products ≡ s.products) × (t.transactions ≡ s.transactions))
        ⊎ ((env.orm.products.get i.product t.products
              ≡ some (set_stock (p.current_stock -ℤ j.quantity) p))
            × (balance i.product t.transactions
                ≡ balance i.product s.transactions -ℤ i.quantity -ℤ j.quantity))
  complete-repeated user pk s so i j p found items same product =
      complete-keeps env outcome user pk s (inl (refl, refl)) (
        complete_block-Returns env outcome user pk s
          (λ so' lines found' of current covered.
            let order : so' ≡ so = cc in
            map-Returns
              (λ _ t. IsTwiceSold i.product p i.quantity j.quantity s t.products t.transactions)
              (λ _ t. outcome t.products t.transactions)
              (for_each (deduct_item env user so'.id) lines s) (λ _ t. inr)
              (repeated_loop user so'.id i j p s lines same product
                (of
                  ∙ ap (λ (o : SalesOrder). ordered_items env o.id s.sales_order_items) order
                  ∙ items)
                current))
          (inl (refl, refl)))
    where
      outcome : List Product → List InventoryTransaction → Type 0
      outcome products transactions =
          ((products ≡ s.products) × (transactions ≡ s.transactions))
          ⊎ IsTwiceSold i.product p i.quantity j.quantity s products transactions
