-- ===== src/Demo/Outgoing.antt =====
-- apps/catalog/management/commands/seed_demo.py: the builders of sales orders, returns and write-
-- offs.
use inventra.Prelude.{
  ℕ, ◌/◌, Bool, Option, none, some, List, [], ◌∷◌, length, map, keep, if◌then◌else◌,
}
use inventra.Prelude.Int.{pos, ◌+ℤ◌, ◌-ℤ◌, ltb_ℤ}
use inventra.Accounts.Models.{User}
use inventra.Catalog.Models.{Product}
use inventra.Inventory.Models.{
  SalesOrder, SalesOrderItem, InventoryTransaction, Return, created, completed, pending, approved,
  sale, return, damage,
}
use inventra.Demo.Random.{Random, Labels}
use inventra.Demo.Builder.{
  Build, pure, gets, put, randint, choice, sample, is_below, new_id, collect, transaction, min, max,
  min_ℤ, join, ◌>>=◌, ◌>>◌,
}

abbrev pub Sale : Type 0
Sale = SalesOrder × List SalesOrderItem × List InventoryTransaction

module _ {random : Random} where
  -- one line of `_build_sales_order`
  unfoldable pub sales_line :
      SalesOrder → Bool → Product → Build random (SalesOrderItem × List InventoryTransaction)
  sales_line so is_completed product = do
    available ← gets (λ s. s.stock product.id)
    quantity ← randint (pos 1) (min_ℤ (pos 5) available)
    id ← new_id
    now ← gets (λ s. s.now)
    let item : SalesOrderItem = record {
      id = id;
      sales_order = so.id;
      product = product.id;
      quantity = quantity;
      unit_price = product.selling_price;
      created_at = now;
    }
    if is_completed
        then (do
          stock ← gets (λ s. s.stock product.id)
          put product.id (stock -ℤ quantity)
          txn ← transaction product.id quantity sale (some so.id) none so.created_by
          pure (item, txn ∷ []))
        else pure (item, [])

  -- the loop of `_build_sales_order`
  unfoldable pub finish_sale : SalesOrder → Bool → List Product → Build random (Option Sale)
  unfolding sales_line collect
  finish_sale so is_completed products = do
    lines ← collect (sales_line so is_completed) products
    pure (some (so, map (λ line. line.0) lines, join (map (λ line. line.1) lines)))

  unfoldable pub sell : Labels → ℕ → List User → List Product → Build random (Option Sale)
  unfolding finish_sale
  sell labels n users [] = pure none
  sell labels n users (p ∷ ps) = do
    is_completed ← is_below 80
    id ← new_id
    now ← gets (λ s. s.now)
    creator ← choice users
    let so : SalesOrder = record {
      id = id;
      status = if is_completed then completed else created;
      customer_name = some (labels.customer_name n);
      customer_phone = none;
      invoice_number = if is_completed then some (labels.invoice_number n) else none;
      invoiced_at = if is_completed then some now else none;
      created_at = now;
      updated_at = now;
      created_by = some creator.id;
    }
    finish_sale so is_completed (p ∷ ps)

  unfoldable pub build_sales_order :
      Labels → ℕ → List Product → List User → Build random (Option Sale)
  unfolding sell
  build_sales_order labels n products users = do
    picked ← sample products (min 3 (length products))
    stock ← gets (λ s. s.stock)
    sell labels n users (keep (λ (p : Product). ltb_ℤ (pos 0) (stock p.id)) picked)

  -- one pass of the loop of `_build_returns`
  unfoldable pub return_line :
      List User
      → SalesOrder × List SalesOrderItem
      → Build random (Return × List InventoryTransaction)
  return_line users (so, items) = do
    item ← choice items
    quantity ← randint (pos 1) item.quantity
    is_approved ← is_below 70
    id ← new_id
    now ← gets (λ s. s.now)
    creator ← choice users
    approver ← (if is_approved then (do u ← choice users; pure (some u.id)) else pure none)
    let ret : Return = record {
      id = id;
      sales_order = so.id;
      product = item.product;
      quantity = quantity;
      reason = "Demo return";
      status = if is_approved then approved else pending;
      approved_by = approver;
      created_at = now;
      created_by = some creator.id;
    }
    if is_approved
        then (do
          stock ← gets (λ s. s.stock item.product)
          put item.product (stock +ℤ quantity)
          txn ← transaction item.product quantity return (some ret.id) none ret.created_by
          pure (ret, txn ∷ []))
        else pure (ret, [])

  unfoldable pub build_returns :
      List (SalesOrder × List SalesOrderItem)
      → List User
      → Build random (List Return × List InventoryTransaction)
  unfolding return_line collect
  build_returns [] users = pure ([], [])
  build_returns (first ∷ rest) users = do
    let sold = first ∷ rest
    picked ← sample sold (min (length sold) (max 1 (length sold / 20)))
    lines ← collect (return_line users) picked
    pure (map (λ line. line.0) lines, join (map (λ line. line.1) lines))

  -- one pass of the loop of `_build_damage`
  unfoldable pub damage_line : List User → Product → Build random InventoryTransaction
  damage_line managers product = do
    available ← gets (λ s. s.stock product.id)
    quantity ← randint (pos 1) (min_ℤ (pos 5) available)
    put product.id (available -ℤ quantity)
    creator ← choice managers
    transaction product.id quantity damage none (some "Demo damage write-off") (some creator.id)

  unfoldable pub build_damage :
      List Product → List User → ℕ → Build random (List InventoryTransaction)
  unfolding damage_line collect
  build_damage products managers count = do
    stock ← gets (λ s. s.stock)
    let candidates : List Product = keep (λ (p : Product). ltb_ℤ (pos 0) (stock p.id)) products
    picked ← sample candidates (min count (length candidates))
    collect (damage_line managers) picked
