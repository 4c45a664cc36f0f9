-- ===== src/Inventory/Stock.antt =====
-- The writes that every stock mutation of apps/inventory/views.py makes, and the ledger that
-- `reconcile_ledger` of apps/inventory/tasks.py computes.
pub mod Cases
pub mod Rules
use inventra.Prelude.{
  ℕ, ◌≡◌, Bool, true, false, ◌&&◌, Option, none, some, String, List, ◌==◌, if◌then◌else◌, sum_by,
}
use inventra.Prelude.Int.{ℤ, pos, negsuc, ◌-ℤ◌, leb_ℤ}
use inventra.Accounts.Models.{User}
use inventra.Catalog.Models.{Product}
use inventra.Inventory.Models.{
  TransactionType, purchase, sale, return, damage, InventoryTransaction,
}
use inventra.Session.{
  Db, Action, pure, gets, or_raise, raise_unless, modify, does_not_exist, data_error, ◌>>=◌, ◌>>◌,
}
use inventra.Django.Env.{Env, draw}

-- the range of an `IntegerField`, and of a `PositiveIntegerField`; PostgreSQL refuses other values
unfoldable pub is_integer_field : ℤ → Bool
is_integer_field n = leb_ℤ (negsuc 2147483647) n && leb_ℤ n (pos 2147483647)

unfoldable pub is_positive_integer_field : ℤ → Bool
is_positive_integer_field n = leb_ℤ (pos 0) n && leb_ℤ n (pos 2147483647)

-- the `signed_quantity` of a ledger row
abbrev pub signed : TransactionType → ℤ → ℤ
signed purchase quantity = quantity
signed return quantity = quantity
signed sale quantity = pos 0 -ℤ quantity
signed damage quantity = pos 0 -ℤ quantity

abbrev pub signed_quantity : InventoryTransaction → ℤ
signed_quantity t = signed t.transaction_type t.quantity

-- what a ledger row contributes to the stock of a product
abbrev pub contribution : ℕ → InventoryTransaction → ℤ
contribution k t = if t.product == k then signed_quantity t else pos 0

-- the stock of a product by the ledger
unfoldable pub balance : ℕ → List InventoryTransaction → ℤ
balance k = sum_by (contribution k)

abbrev pub set_stock : ℤ → Product → Product
set_stock stock p = record p { current_stock = stock }

module _ (env : Env) where
  -- `Product.objects.select_for_update().get(pk=...)`
  unfoldable pub get_product : ℕ → Action Product
  get_product pk = do
    found ← gets (λ s. env.orm.products.get pk s.products)
    or_raise found does_not_exist

  -- `product.save(update_fields=["current_stock"])`
  unfoldable pub save_stock : Product → Action Unit
  save_stock product = do
    raise_unless (is_integer_field product.current_stock) data_error
    modify λ db. record db {
      products = env.orm.products.update product.id (set_stock product.current_stock) db.products;
    }

  -- `InventoryTransaction.objects.create(...)`
  unfoldable pub create_transaction :
      Product → ℤ → TransactionType → Option ℕ → Option String → User → Action InventoryTransaction
  unfolding draw
  create_transaction product quantity transaction_type reference_id reason user = do
    raise_unless (is_integer_field quantity) data_error
    id ← draw env
    now ← gets (λ s. s.now)
    let row : InventoryTransaction = record {
      id = id;
      product = product.id;
      quantity = quantity;
      transaction_type = transaction_type;
      reference_id = reference_id;
      reason = reason;
      created_at = now;
      created_by = some user.id;
    }
    modify λ db. record db { transactions = env.orm.transactions.insert row db.transactions }
    pure row
