-- ===== src/LoadTest/Reset.antt =====
-- apps/catalog/management/commands/reset_loadtest_stock.py: creation or reset of the product of the
-- load test. The command runs in no transaction.
use text.Mathlib.Text as Text
use inventra.Prelude.{ℕ, String, Bool, true, not, ◌&&◌, none, List, [], ◌∷◌, map, ◌==◌}
use inventra.Prelude.Int.{ℤ, pos}
use inventra.Catalog.Models.{Category, Supplier, Product}
use inventra.Inventory.Models.{SalesOrder, SalesOrderItem, InventoryTransaction, Return}
use inventra.Inventory.Stock.{is_integer_field}
use inventra.Inventory.Requests.{contains, exists}
use inventra.Session.{
  Action, pure, raise, gets, raise_if, raise_unless, modify, data_error, multiple_objects_returned,
  protected_error, ◌>>=◌, ◌>>◌,
}
use inventra.Django.Env.{Env, draw}

-- the texts of the command
abbrev pub contended_sku : String
contended_sku = "LOADTEST-CONTENDED-001"

abbrev pub category_name : String
category_name = "Load Test Category"

abbrev pub supplier_name : String
supplier_name = "Load Test Supplier"

module _ (env : Env) where
  -- `Category.objects.get_or_create(...)`, by the rows that match
  unfoldable pub category_from : List Category → Action Category
  unfolding draw
  category_from [] = do
    id ← draw env
    now ← gets (λ s. s.now)
    let category : Category = record {
      id = id;
      name = category_name;
      description = none;
      is_active = true;
      created_at = now;
      updated_at = now;
      created_by = none;
    }
    modify λ db. record db { categories = env.orm.categories.insert category db.categories }
    pure category
  category_from (c ∷ []) = pure c
  category_from (c ∷ d ∷ rest) = raise multiple_objects_returned

  unfoldable pub supplier_from : List Supplier → Action Supplier
  unfolding draw
  supplier_from [] = do
    id ← draw env
    now ← gets (λ s. s.now)
    let supplier : Supplier = record {
      id = id;
      name = supplier_name;
      email = "loadtest-supplier@example.com";
      phone = none;
      address = none;
      is_active = true;
      created_at = now;
      updated_at = now;
      created_by = none;
    }
    modify λ db. record db { suppliers = env.orm.suppliers.insert supplier db.suppliers }
    pure supplier
  supplier_from (c ∷ []) = pure c
  supplier_from (c ∷ d ∷ rest) = raise multiple_objects_returned

  unfoldable pub product_from : ℤ → Category → Supplier → List Product → Action Product
  unfolding draw
  product_from stock category supplier [] = do
    raise_unless (is_integer_field stock) data_error
    id ← draw env
    now ← gets (λ s. s.now)
    let product : Product = record {
      id = id;
      sku = contended_sku;
      name = "Load Test Contended Product";
      description = none;
      cost_price = pos 500;
      selling_price = pos 900;
      current_stock = stock;
      low_stock_threshold = pos 0;
      category = category.id;
      supplier = supplier.id;
      is_active = true;
      created_at = now;
      updated_at = now;
      created_by = none;
    }
    modify λ db. record db { products = env.orm.products.insert product db.products }
    pure product
  product_from stock category supplier (p ∷ []) = pure p
  product_from stock category supplier (p ∷ q ∷ rest) = raise multiple_objects_returned

  -- the orders among `ids` that have no items left
  unfoldable pub is_stale : List ℕ → List SalesOrderItem → SalesOrder → Bool
  unfolding exists
  is_stale ids items so =
      contains so.id ids
      && not (exists env.orm.sales_order_items (λ i. i.sales_order == so.id) items)

  -- the deletion of those orders, which a return of one of them refuses
  unfoldable pub delete_stale : List ℕ → Action Unit
  unfolding is_stale
  delete_stale ids = do
    db ← gets (λ s. s.db)
    let stale = is_stale ids db.sales_order_items
    raise_if
        (exists env.orm.sales_orders
          (λ so.
            stale so && exists env.orm.returns (λ (r : Return). r.sales_order == so.id) db.returns)
          db.sales_orders)
        protected_error
    modify λ db. record db { sales_orders = env.orm.sales_orders.delete stale db.sales_orders }

  -- what the command deletes of earlier runs
  unfoldable pub clear : ℕ → Action Unit
  unfolding delete_stale
  clear product = do
    modify λ db. record db {
      transactions =
          env.orm.transactions.delete (λ (t : InventoryTransaction). t.product == product)
            db.transactions;
    }
    stale_order_ids ← gets (λ s.
        map (λ (i : SalesOrderItem). i.sales_order)
          (env.orm.sales_order_items.filter (λ (i : SalesOrderItem). i.product == product)
            s.sales_order_items))
    modify λ db. record db {
      sales_order_items =
          env.orm.sales_order_items.delete (λ (i : SalesOrderItem). i.product == product)
            db.sales_order_items;
    }
    delete_stale stale_order_ids

  abbrev pub restock : ℤ → Product → Product
  restock stock p = record p { current_stock = stock; is_active = true }

  -- the reset of the found or created product
  unfoldable pub reset : ℤ → Product → Action Unit
  unfolding clear
  reset stock product = do
    clear product.id
    raise_unless (is_integer_field stock) data_error
    modify λ db. record db {
      products = env.orm.products.update product.id (restock stock) db.products;
    }

  unfoldable pub handle : ℤ → Action Unit
  unfolding category_from supplier_from product_from reset
  handle stock = do
    categories ← gets (λ s.
        env.orm.categories.filter (λ (c : Category). Text.◌==◌ c.name category_name) s.categories)
    category ← category_from categories
    suppliers ← gets (λ s.
        env.orm.suppliers.filter (λ (c : Supplier). Text.◌==◌ c.name supplier_name) s.suppliers)
    supplier ← supplier_from suppliers
    products ←
        gets
          (λ s. env.orm.products.filter (λ (p : Product). Text.◌==◌ p.sku contended_sku) s.products)
    product ← product_from stock category supplier products
    reset stock product
