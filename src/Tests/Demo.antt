-- ===== src/Tests/Demo.antt =====
-- The demo data of three products, by a generator that always draws the first.
use inventra.Prelude.{ℕ, ◌≡◌, refl, true, none, length, List, [], ◌∷◌, arith, All, sum_by}
use inventra.Prelude.Int.{pos, ◌+ℤ◌}
use inventra.Catalog.Models.{Category, Supplier, Product}
use inventra.Inventory.Stock.{balance}
use inventra.Session.{Db}
use inventra.Demo.Random.{Labels}
use inventra.Demo.Builder.{State}
use inventra.Demo.Fixed.{first_random}
use inventra.Demo.Orders.{seed_products, seed_orders, write}
use inventra.Demo.Rules.{Ensures}
use inventra.Demo.Balance.{AreSeeds}
use inventra.Demo.Products.{seed_products-AreSeeds}
use inventra.Demo.Ledger.{IsAccounted, seed_orders-IsAccounted}
use inventra.Tests.Shop.{env, orm, boss, lamp, shop}

abbrev labels : Labels
labels = record {
  sku = λ n. "DEMO";
  product_name = λ n. "Demo Product";
  customer_name = λ n. "Demo Customer";
  invoice_number = λ n. n;
}

abbrev seeded : ℕ → Product
seeded id = record lamp { id = id; current_stock = pos 50 }

abbrev seeds : List Product
seeds = seeded 11 ∷ seeded 12 ∷ seeded 13 ∷ []

seeds-AreSeeds : AreSeeds seeds
seeds-AreSeeds = record {
  enough = omega arith;
  apart = ((refl, (refl, tt)), ((refl, tt), (tt, tt)));
  nonneg = (omega arith, (omega arith, (omega arith, tt)));
}

abbrev begin : State first_random
begin = record { rng = tt; draws = 0; now = 0; stock = λ j. pos 0 }

no_rows : All (λ p. balance p.id shop.transactions ≡ pos 0) seeds
unfolding balance sum_by ◌+ℤ◌
no_rows = (refl, (refl, (refl, tt)))

seed_orders-IsAccounted_example :
    Ensures
      (λ made s'. All (λ p. IsAccounted env (write orm seeds s'.stock made shop.db) p) seeds)
      (seed_orders labels 4 seeds (boss ∷ []) begin)
seed_orders-IsAccounted_example =
    seed_orders-IsAccounted env labels 4 seeds boss [] boss [] begin shop.db seeds-AreSeeds refl
      no_rows

abbrev category : Category
category = record {
  id = 1;
  name = "Demo Category 1";
  description = none;
  is_active = true;
  created_at = 0;
  updated_at = 0;
  created_by = none;
}

abbrev supplier : Supplier
supplier = record {
  id = 1;
  name = "Demo Supplier 1";
  email = "demo-supplier-1@demo.seed";
  phone = none;
  address = none;
  is_active = true;
  created_at = 0;
  updated_at = 0;
  created_by = none;
}

seed_products-AreSeeds_example :
    Ensures
      (λ ps s'. (length ps ≡ 3) × AreSeeds ps)
      (seed_products labels 3 (category ∷ []) (supplier ∷ []) (boss ∷ []) begin)
seed_products-AreSeeds_example =
    seed_products-AreSeeds first_random (λ a b e. e) labels category [] supplier [] boss [] 3 begin
      (omega arith)

-- the shop before its first product
abbrev new_shop : Db
new_shop = record shop.db { transactions = []; products = [] }
