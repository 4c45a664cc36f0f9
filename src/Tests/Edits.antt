-- ===== src/Tests/Edits.antt =====
-- Updates of the shop's product.
use inventra.Prelude.{◌≡◌, refl, true, none, some, arith}
use inventra.Prelude.Int.{pos}
use inventra.Http.{respond, product_data}
use inventra.Session.{Session, ok}
use inventra.Catalog.Editing.{ProductInput, is_valid, assigned, update_product}
use inventra.Catalog.StockEdits.{update_product-unbalances, update_product-IsBalanced}
use inventra.Inventory.Stock.{is_integer_field}
use inventra.Inventory.Ledger.{IsBalanced}
use inventra.Django.Find.{find}
use inventra.Tests.Shop.{env, lamp, shop}
use inventra.Tests.Witnesses.{shop-IsBalanced}

abbrev silent : ProductInput
silent = record {
  sku = none;
  name = some "desk lamp";
  description = none;
  cost_price = none;
  selling_price = none;
  current_stock = none;
  low_stock_threshold = none;
  category = none;
  supplier = none;
  is_active = none;
}

abbrev restocked : ProductInput
restocked = record silent { current_stock = some (pos 9) }

restocked-is_valid : is_valid env true (some 10) restocked shop.db ≡ true
unfolding is_valid is_integer_field
restocked-is_valid = refl

lamp-found : env.orm.products.get 10 shop.products ≡ some lamp
unfolding find
lamp-found = refl

update_product-unbalances_example :
    (t : Session) × (update_product env true 10 restocked shop
      ≡ (ok (respond 200 (product_data (assigned env restocked 7 lamp))), t))
    × ¬ IsBalanced env t.products t.transactions
update_product-unbalances_example =
    update_product-unbalances env true 10 restocked lamp (pos 9) shop lamp-found refl
      restocked-is_valid refl (λ e. ground arith) shop-IsBalanced

update_product-IsBalanced_example :
    let (_, t) = update_product env true 10 silent shop in IsBalanced env t.products t.transactions
update_product-IsBalanced_example =
    update_product-IsBalanced env true 10 silent shop refl (lamp-found, tt) shop-IsBalanced
