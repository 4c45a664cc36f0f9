-- ===== src/Inventory/Damage.antt =====
-- `DamageWriteOffView` of apps/inventory/views.py with `DamageWriteOffSerializer`.
pub mod Balance
use inventra.Prelude.{
  ℕ, String, Bool, ◌&&◌, Option, none, some, ◌==◌, leb, ◌&&◌, ◌⊎◌, inl, inr, if◌then◌else◌,
}
use Prim.Native.String.{count}
use inventra.Prelude.Int.{ℤ, pos, ◌-ℤ◌, leb_ℤ, ltb_ℤ}
use inventra.Accounts.Models.{User}
use inventra.Catalog.Models.{Product}
use inventra.Notifications.Services.{check_and_notify_stock}
use inventra.Inventory.Models.{InventoryTransaction, damage}
use inventra.Inventory.Stock.{set_stock, get_product, save_stock, create_transaction}
use inventra.Http.{Response, respond, detail, product_not_found, cannot_write_off, transaction_data}
use inventra.Session.{
  Action, pure, gets, raise_unless, on_commit, bump_inventory, validation_error, ◌>>=◌, ◌>>◌,
}
use inventra.Django.Env.{Env}

-- `request.data`
pub record DamageInput : Type 0 where
  pub product_id : ℕ
  pub quantity : ℤ
  pub reason : String

-- `quantity = IntegerField(min_value=1)`, and a reason of 1 to 1000 characters; `reason` is the
-- text as the serializer has trimmed it
unfoldable pub is_valid : DamageInput → Bool
is_valid input =
    leb_ℤ (pos 1) input.quantity && (leb 1 (count input.reason) && leb (count input.reason) 1000)

module _ (env : Env) where
  -- `Product.objects.select_for_update().filter(pk=..., is_active=True).first()`
  unfoldable pub first_active : ℕ → Action (Option Product)
  first_active pk = gets (λ s. elim (env.orm.products.get pk s.products) [
    | none ↦ none
    | some p ↦ if p.is_active then some p else none
  ])

  -- what is written for a product with enough stock
  unfoldable pub deduct : User → DamageInput → Product → Action (Response ⊎ InventoryTransaction)
  unfolding save_stock create_transaction check_and_notify_stock
  deduct user input found = do
    let product = set_stock (found.current_stock -ℤ input.quantity) found
    save_stock env product
    txn ← create_transaction env product input.quantity damage none (some input.reason) user
    check_and_notify_stock env product
    on_commit bump_inventory
    pure (inr txn)

  unfoldable pub write_off :
      User → DamageInput → Option Product → Action (Response ⊎ InventoryTransaction)
  unfolding deduct
  write_off user input none = pure (inl (respond 400 (detail product_not_found)))
  write_off user input (some product) =
      if ltb_ℤ product.current_stock input.quantity
      then pure (inl (respond 409 (detail (cannot_write_off input.quantity product.current_stock))))
      else deduct user input product

  -- the body of `with transaction.atomic():`, without the logging
  unfoldable pub post_block : User → DamageInput → Action (Response ⊎ InventoryTransaction)
  unfolding first_active write_off
  post_block user input = do product ← first_active input.product_id; write_off user input product

  abbrev pub after_post : Response ⊎ InventoryTransaction → Action Response
  after_post (inl response) = pure response
  after_post (inr txn) = pure (respond 201 (transaction_data txn))

  unfoldable pub post : User → DamageInput → Action Response
  unfolding is_valid post_block
  post user input = do
    raise_unless (is_valid input) validation_error
    done ← env.atomic (Response ⊎ InventoryTransaction) (post_block user input)
    after_post done
