-- ===== src/Demo/Orders.antt =====
-- apps/catalog/management/commands/seed_demo.py: `_seed_products`, `_seed_orders` and what it
-- writes.
use inventra.Prelude.{
  ℕ, zero, suc, ◌==◌, ◌/◌, Bool, true, false, Option, none, some, List, [], ◌∷◌, ◌++◌, keep,
  if◌then◌else◌,
}
use inventra.Prelude.Int.{ℤ, pos, ltb_ℤ}
use inventra.Accounts.Models.{admin, manager, employee, User}
use inventra.Catalog.Models.{Category, Supplier, Product}
use inventra.Inventory.Models.{
  PurchaseOrder, PurchaseOrderItem, SalesOrder, SalesOrderItem, SalesOrderStatus, created,
  completed, InventoryTransaction, Return,
}
use inventra.Inventory.Stock.{set_stock}
use inventra.Session.{Db}
use inventra.Django.Env.{Orm}
use inventra.Demo.Random.{Random, Labels}
use inventra.Demo.Builder.{Build, pure, is_below, collect, max, gets, ◌>>=◌, ◌>>◌}
use inventra.Demo.Seeds.{seed_product, opening, build_purchase_order}
use inventra.Demo.Outgoing.{Sale, build_sales_order, build_returns, build_damage}

-- the rows of the orders, in the lists of `_seed_orders`
pub record Orders : Type 0 where
  pub purchase_orders : List PurchaseOrder
  pub purchase_items : List PurchaseOrderItem
  pub sales_orders : List SalesOrder
  pub sales_items : List SalesOrderItem
  pub transactions : List InventoryTransaction
  -- `completed_sales_orders`
  pub sold : List (SalesOrder × List SalesOrderItem)

-- `range(start, start + n)`
abbrev pub range : ℕ → ℕ → List ℕ
range start zero = []
range start (suc n) = start ∷ range (suc start) n

abbrev pub is_manager : User → Bool
is_manager u = elim u.role [ admin ↦ true | manager ↦ true | employee ↦ false ]

abbrev pub is_completed : SalesOrderStatus → Bool
is_completed created = false
is_completed completed = true

-- `{p.id: p.current_stock for p in products}`, added to a dictionary
unfoldable pub stock_of : List Product → (ℕ → ℤ) → ℕ → ℤ
stock_of [] stock = stock
stock_of (p ∷ ps) stock = stock_of ps (λ j. if j == p.id then p.current_stock else stock j)

-- what a sales order adds to the lists; a pass without one is skipped
unfoldable pub add_sale : Option Sale → Orders → Orders
add_sale none rows = rows
add_sale (some (so, items, txns)) rows = record rows {
  sales_orders = rows.sales_orders ++ so ∷ [];
  sales_items = rows.sales_items ++ items;
  transactions = rows.transactions ++ txns;
  sold = if is_completed so.status then rows.sold ++ (so, items) ∷ [] else rows.sold;
}

module _ {random : Random} (labels : Labels) where
  unfoldable pub seed_products :
      ℕ → List Category → List Supplier → List User → Build random (List Product)
  unfolding collect seed_product
  seed_products num_products categories suppliers users =
      collect (seed_product labels categories suppliers users) (range 1 num_products)

  module _ (products : List Product) (managers users : List User) where
    -- one pass of the loop over the orders
    unfoldable pub order_pass : ℕ → Orders → Build random Orders
    unfolding build_purchase_order build_sales_order add_sale
    order_pass n rows = do
      is_purchase ← is_below 50
      if is_purchase
          then (do
            (po, items, txns) ← build_purchase_order products managers
            pure (record rows {
              purchase_orders = rows.purchase_orders ++ po ∷ [];
              purchase_items = rows.purchase_items ++ items;
              transactions = rows.transactions ++ txns;
            }))
          else (do result ← build_sales_order labels n products users; pure (add_sale result rows))

    unfoldable pub order_passes : List ℕ → Orders → Build random Orders
    unfolding order_pass
    order_passes [] rows = pure rows
    order_passes (n ∷ ns) rows =
        let rest = order_passes ns in do rows' ← order_pass n rows; rest rows'

  abbrev pub begin_stock : List Product → Build random Unit
  begin_stock products s = some (tt, record s { stock = stock_of products (λ j. pos 0) })

  -- the rows that `_seed_orders` makes, with the returns
  unfoldable pub seed_orders : ℕ → List Product → List User → Build random (Orders × List Return)
  unfolding opening collect order_passes build_returns build_damage
  seed_orders num_orders products users = do
    let managers : List User = keep is_manager users
    begin_stock products
    openings ←
        collect (opening managers) (keep (λ (p : Product). ltb_ℤ (pos 0) p.current_stock) products)
    rows ← order_passes products managers users (range 0 num_orders) (record {
      purchase_orders = [];
      purchase_items = [];
      sales_orders = [];
      sales_items = [];
      transactions = openings;
      sold = [];
    })
    (returns, return_txns) ← build_returns rows.sold users
    damage_txns ← build_damage products managers (max 1 (num_orders / 40))
    pure (record rows { transactions = rows.transactions ++ return_txns ++ damage_txns }, returns)

module _ (orm : Orm) where
  -- `Product.objects.bulk_update(products, ["current_stock"])`
  unfoldable pub bulk_update : (ℕ → ℤ) → List Product → List Product → List Product
  bulk_update stock [] rows = rows
  bulk_update stock (p ∷ ps) rows =
      bulk_update stock ps (orm.products.update p.id (set_stock (stock p.id)) rows)

  -- the writes at the end of `_seed_orders`
  unfoldable pub write : List Product → (ℕ → ℤ) → Orders × List Return → Db → Db
  unfolding bulk_update
  write products stock (rows, returns) db = record db {
    purchase_orders = orm.purchase_orders.bulk_create rows.purchase_orders db.purchase_orders;
    purchase_order_items =
        orm.purchase_order_items.bulk_create rows.purchase_items db.purchase_order_items;
    sales_orders = orm.sales_orders.bulk_create rows.sales_orders db.sales_orders;
    sales_order_items = orm.sales_order_items.bulk_create rows.sales_items db.sales_order_items;
    returns = orm.returns.bulk_create returns db.returns;
    transactions = orm.transactions.bulk_create rows.transactions db.transactions;
    products = bulk_update stock products db.products;
  }

  -- the products and orders of `handle`, with the tables that it leaves
  unfoldable pub seed :
      {random : Random}
      → Labels
      → ℕ
      → ℕ
      → List Category
      → List Supplier
      → List User
      → Db
      → Build random (List Product × Db)
  unfolding seed_products seed_orders write
  seed labels num_products num_orders categories suppliers users db = do
    products ← seed_products labels num_products categories suppliers users
    let begun : Db = record db { products = orm.products.bulk_create products db.products }
    made ← seed_orders labels num_orders products users
    stock ← gets (λ s. s.stock)
    pure (products, write products stock made begun)
