-- ===== src/Demo/Seeded.antt =====
-- The command's products and orders together.
use inventra.Prelude.{some, ◌≡◌}
use inventra.Prelude.Int.{ℤ, pos, ◌≤ℤ◌}
use inventra.Catalog.Models.{Product}
use inventra.Inventory.Stock.{balance, set_stock}
use inventra.Session.{Db}
use inventra.Django.Env.{Env}
use inventra.Demo.Random.{Random}

-- the row of a seeded product afterwards: only its stock has changed, to the sum of its ledger rows
module _ (env : Env) where
  abbrev pub IsSeeded : Db → Product → Type 0
  IsSeeded after p =
      (v : ℤ) × (env.orm.products.get p.id after.products ≡ some (set_stock v p))
      × (v ≡ balance p.id after.transactions)
      × (pos 0 ≤ℤ v)
