-- ===== src/Tests/Resets.antt =====
-- A user who is disabled and enabled, and the reset of the shop's product.
use inventra.Prelude.{All, ℕ, ◌≡◌, ◌≢◌, ◌⊎◌, refl, true, false, some}
use inventra.Prelude.Int.{pos}
use inventra.Accounts.Users.{enable, destroy}
use inventra.Accounts.Restore.{destroy-enable}
use inventra.Http.{respond, user_data, read_user}
use inventra.Django.Find.{find}
use inventra.Inventory.Stock.{is_integer_field}
use inventra.Inventory.Models.{InventoryTransaction}
use inventra.Inventory.Ledger.{IsBalanced}
use inventra.LoadTest.Reset.{reset, restock}
use inventra.LoadTest.Mismatch.{is_returned, reset-unaccounted}
use inventra.Session.{Session, ok, raised, protected_error}
use inventra.Tests.Shop.{env, boss, fields, lamp, shop}

boss-found : env.orm.users.get 1 shop.users ≡ some boss
unfolding find
boss-found = refl

destroy-enable_example :
    let (answer, t) = destroy env fields 1 shop in
    let (answer', t') = enable env fields 1 t in
    (answer ≡ ok (respond 200 (user_data (read_user (record boss { is_active = false })))))
    × (answer' ≡ ok (respond 200 (user_data (read_user boss))))
    × ((k : ℕ) → env.orm.users.get k t'.users ≡ env.orm.users.get k shop.users)
destroy-enable_example = destroy-enable env fields 1 boss shop boss-found refl

lamp-found : env.orm.products.get 10 shop.products ≡ some lamp
unfolding find
lamp-found = refl

hundred-fits : is_integer_field (pos 100) ≡ true
unfolding is_integer_field
hundred-fits = refl

reset-unaccounted_example :
    (t : Session) × All (λ (row : InventoryTransaction). row.product ≢ 10) t.transactions
    × (((is_returned env 10 shop ≡ true)
          × (reset env (pos 100) lamp shop ≡ (raised protected_error, t)))
        ⊎ ((is_returned env 10 shop ≡ false)
            × (reset env (pos 100) lamp shop ≡ (ok tt, t))
            × (env.orm.products.get 10 t.products ≡ some (restock env (pos 100) lamp))
            × (pos 100 ≢ pos 0 → ¬ IsBalanced env t.products t.transactions)))
reset-unaccounted_example = reset-unaccounted env (pos 100) lamp shop lamp-found hundred-fits
