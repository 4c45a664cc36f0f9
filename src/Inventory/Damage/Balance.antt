-- ===== src/Inventory/Damage/Balance.antt =====
-- Write-offs, the stock ledger, and writing off what is not there.
use inventra.Prelude.{◌≡◌, refl, sym, inl, inr, Bool-cases, Option-cases, none, some, arith, ◌⊎◌}
use inventra.Prelude.Int.{◌-ℤ◌, ◌≤ℤ◌, ltb_ℤ, +ℤ_neg, int_laws}
use inventra.Accounts.Models.{User}
use inventra.Catalog.Models.{Product}
use inventra.Inventory.Models.{InventoryTransaction, damage}
use inventra.Inventory.Stock.{set_stock}
use inventra.Inventory.Stock.Cases.{saved, transaction_row, recorded}
use inventra.Inventory.Stock.Rules.{move_bind, quiet_bind}
use inventra.Inventory.Ledger.{IsBalanced, move-IsBalanced}
use inventra.Inventory.Sales.Oversell.{IsStocked, update-IsStocked}
use inventra.Inventory.Damage.{
  DamageInput, is_valid, first_active, deduct, write_off, post_block, after_post, post,
}
use inventra.Notifications.Services.{check_and_notify_stock}
use inventra.Notifications.Frame.{check_and_notify_stock-IsQuiet}
use inventra.Http.{Response}
use inventra.Session.{Session, pure, on_commit, bump_inventory, ◌>>◌}
use inventra.Session.Outcome.{Returns}
use inventra.Django.Env.{Env}
use inventra.Django.Atomic.{IsReader, atomic_then}

module _ (env : Env) (C : Type 0) where
  -- the ledger agrees with the stock, and no stock is below zero if `C` holds
  abbrev IsSound : Session → Type 0
  IsSound s = IsBalanced env s.products s.transactions × (C → IsStocked env s.products)

  deduct-IsSound :
      (user : User) (input : DamageInput) (p : Product) (s : Session)
      → env.orm.products.get input.product_id s.products ≡ some p
      → input.quantity ≤ℤ p.current_stock
      → IsSound s
      → Returns (λ _ t. IsSound t) (deduct env user input p s)
  unfolding deduct
  deduct-IsSound user input p s found enough h =
      let product : Product = set_stock (p.current_stock -ℤ input.quantity) p in
      let t : Session = saved env product s in
      let row : InventoryTransaction =
        transaction_row env product input.quantity damage none (some input.reason) user t in
      move_bind keeps env product input.quantity damage none (some input.reason) user _ s (
        quiet_bind keeps (check_and_notify_stock env product)
          (λ _. on_commit bump_inventory >> pure (inr row)) (recorded env row t)
          (check_and_notify_stock-IsQuiet env product)
          λ n d. (
            move-IsBalanced env input.product_id p product.current_stock row s.products
                s.transactions found refl (sym (+ℤ_neg p.current_stock input.quantity)) h.0,
            λ c.
                update-IsStocked env p.id product.current_stock s.products (omega int_laws) (h.1 c),
          ))
    where
      keeps : Response ⊎ InventoryTransaction → Session → Type 0
      keeps _ t = IsSound t

  post_block-IsSound :
      (user : User) (input : DamageInput) (s : Session)
      → IsSound s
      → Returns (λ _ t. IsSound t) (post_block env user input s)
  unfolding post_block first_active write_off
  post_block-IsSound user input s h =
      elim (Option-cases (env.orm.products.get input.product_id s.products)) [
        | inl e ↦ rw e h
        | inr (p, e) ↦ elim (Bool-cases p.is_active) [
          | inr gone ↦ rw (e, gone) h
          | inl active ↦ elim (Bool-cases (ltb_ℤ p.current_stock input.quantity)) [
            | inl short ↦ rw (e, active, short) h
            | inr enough ↦ rw (e, active, enough) (deduct-IsSound user input p s e (ground arith) h)
          ]
        ]
      ]

  after_post-IsReader : (r : Response ⊎ InventoryTransaction) → IsReader (after_post env r)
  after_post-IsReader (inl response) t = refl
  after_post-IsReader (inr txn) t = refl

  post_ends :
      (user : User) (input : DamageInput) (s : Session)
      → IsSound s
      → IsSound (post env user input s).1
  unfolding post
  post_ends user input s h = elim (Bool-cases (is_valid input)) [
    | inr bad ↦ rw bad h
    | inl good ↦ rw good (
        atomic_then
          (λ db. IsBalanced env db.products db.transactions × (C → IsStocked env db.products))
          (after_post env) after_post-IsReader env (post_block env user input) s h
          (post_block-IsSound user input s h))
  ]

module _ (env : Env) where
  -- A write-off keeps every product's stock equal to the sum of its ledger rows and at zero or
  -- more, however the call ends.
  pub post-IsSound :
      (user : User) (input : DamageInput) (s : Session)
      → IsBalanced env s.products s.transactions
      → IsStocked env s.products
      → let (_, t) = post env user input s in
        IsBalanced env t.products t.transactions × IsStocked env t.products
  post-IsSound user input s balanced stocked =
      let (b, c) = post_ends env (Unit {0}) user input s (balanced, λ _. stocked) in (b, c tt)

  -- whatever the stock is
  pub post-IsBalanced :
      (user : User) (input : DamageInput) (s : Session)
      → IsBalanced env s.products s.transactions
      → let (_, t) = post env user input s in IsBalanced env t.products t.transactions
  post-IsBalanced user input s balanced = (post_ends env ⊥ user input s (balanced, λ c. absurd c)).0
