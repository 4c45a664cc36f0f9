-- ===== src/Demo/Seeds.antt =====
-- apps/catalog/management/commands/seed_demo.py: the builders of products, their opening balances
-- and purchase orders. The rows are made in memory and written at the end.
use inventra.Prelude.{ℕ, Bool, true, none, some, List, [], ◌∷◌, map, if◌then◌else◌}
use inventra.Prelude.Int.{pos, pos_part, ◌+ℤ◌}
use inventra.Accounts.Models.{User}
use inventra.Catalog.Models.{Category, Supplier, Product}
use inventra.Inventory.Models.{
  PurchaseOrder, PurchaseOrderItem, InventoryTransaction, ordered, received, purchase,
}
use inventra.Demo.Random.{Random, Labels}
use inventra.Demo.Builder.{
  Build, pure, gets, put, randint, choice, sample, is_below, marked_up, new_id, first_of, collect,
  transaction, join, ◌>>=◌, ◌>>◌,
}

module _ {random : Random} where
  -- `_seed_products`, for one number
  unfoldable pub seed_product :
      Labels → List Category → List Supplier → List User → ℕ → Build random Product
  seed_product labels categories suppliers users i = do
    cost ← randint (pos 500) (pos 5000)
    price ← marked_up cost
    stock ← randint (pos 50) (pos 500)
    threshold ← randint (pos 5) (pos 50)
    category ← choice categories
    supplier ← choice suppliers
    creator ← choice users
    id ← new_id
    now ← gets (λ s. s.now)
    pure (record {
      id = id;
      sku = labels.sku i;
      name = labels.product_name i;
      description = none;
      cost_price = cost;
      selling_price = price;
      current_stock = stock;
      low_stock_threshold = threshold;
      category = category.id;
      supplier = supplier.id;
      is_active = true;
      created_at = now;
      updated_at = now;
      created_by = some creator.id;
    })

  -- the opening balance of one product
  unfoldable pub opening : List User → Product → Build random InventoryTransaction
  opening managers p = do
    creator ← choice managers
    transaction p.id p.current_stock purchase none none (some creator.id)

  -- one line of `_build_purchase_order`
  unfoldable pub purchase_line :
      PurchaseOrder → Bool → Product → Build random (PurchaseOrderItem × List InventoryTransaction)
  purchase_line po is_received product = do
    quantity ← randint (pos 5) (pos 100)
    id ← new_id
    now ← gets (λ s. s.now)
    let item : PurchaseOrderItem = record {
      id = id;
      purchase_order = po.id;
      product = product.id;
      quantity = quantity;
      unit_cost = product.cost_price;
      created_at = now;
    }
    if is_received
        then (do
          stock ← gets (λ s. s.stock product.id)
          put product.id (stock +ℤ quantity)
          txn ← transaction product.id quantity purchase (some po.id) none po.created_by
          pure (item, txn ∷ []))
        else pure (item, [])

  -- the loop of `_build_purchase_order`
  unfoldable pub finish_purchase :
      PurchaseOrder
      → Bool
      → List Product
      → Build random (PurchaseOrder × List PurchaseOrderItem × List InventoryTransaction)
  unfolding purchase_line collect
  finish_purchase po is_received supplier_items = do
    lines ← collect (purchase_line po is_received) supplier_items
    pure (po, map (λ line. line.0) lines, join (map (λ line. line.1) lines))

  unfoldable pub build_purchase_order :
      List Product
      → List User
      → Build random (PurchaseOrder × List PurchaseOrderItem × List InventoryTransaction)
  unfolding finish_purchase
  build_purchase_order products managers = do
    k ← randint (pos 1) (pos 3)
    supplier_items ← sample products (pos_part k)
    is_received ← is_below 80
    id ← new_id
    now ← gets (λ s. s.now)
    creator ← choice managers
    first ← first_of supplier_items
    let po : PurchaseOrder = record {
      id = id;
      supplier = first.supplier;
      status = if is_received then received else ordered;
      received_at = if is_received then some now else none;
      created_at = now;
      updated_at = now;
      created_by = some creator.id;
    }
    finish_purchase po is_received supplier_items
