-- ===== src/Inventory/Ledger.antt =====
-- The ledger invariant, `current_stock == sum of that product's InventoryTransaction rows`
-- (apps/inventory/tasks.py), and the pair of writes that keeps it.
use mathlib.Core.Option
use inventra.Prelude.{ℕ, ◌≡◌, refl, ◌∙◌, some, List, arith, ◌==◌, if◌then◌else◌}
use inventra.Prelude.Int.{ℤ, ◌+ℤ◌, +ℤ_comm, zero-+ℤ}
use inventra.Catalog.Models.{Product}
use inventra.Inventory.Models.{InventoryTransaction}
use inventra.Django.Env.{Env}
use inventra.Inventory.Stock.{signed_quantity, contribution, balance, set_stock}

module _ (env : Env) where
  -- every product's stock is the sum of its ledger rows
  abbrev pub IsBalanced : List Product → List InventoryTransaction → Type 0
  IsBalanced products transactions =
      (k : ℕ) (p : Product)
      → env.orm.products.get k products ≡ some p
      → p.current_stock ≡ balance k transactions

  pub balance-insert :
      (k : ℕ) (row : InventoryTransaction) (ts : List InventoryTransaction)
      → balance k (env.orm.transactions.insert row ts) ≡ contribution k row +ℤ balance k ts
  unfolding balance
  balance-insert k row ts = env.orm.transactions.sum-insert (contribution k) row ts

  pub get-set_stock :
      (j k : ℕ) (v : ℤ) (products : List Product)
      → env.orm.products.get k (env.orm.products.update j (set_stock v) products) ≡ (
          if k == j
          then Option.map (set_stock v) (env.orm.products.get k products)
          else env.orm.products.get k products)
  get-set_stock j k v products = env.orm.products.get-update j (set_stock v) products k (λ r. refl)

  -- writing new stock together with a ledger row for the difference keeps the ledger.
  move_key-IsBalanced :
      (j : ℕ) (p : Product) (v : ℤ) (row : InventoryTransaction) (products : List Product)
      (ts : List InventoryTransaction)
      → env.orm.products.get j products ≡ some p
      → row.product ≡ j
      → v ≡ p.current_stock +ℤ signed_quantity row
      → IsBalanced products ts
      → IsBalanced
          (env.orm.products.update j (set_stock v) products)
          (env.orm.transactions.insert row ts)
  move_key-IsBalanced j p v row products ts found at_j moved balanced k q e = ground (
    arith,
    balance-insert k row ts,
    get-set_stock j k v products,
    balanced k p,
    balanced k q,
    +ℤ_comm (signed_quantity row) (balance k ts),
    zero-+ℤ (balance k ts),
  )

  -- Writing a found product's new stock, together with a ledger row for the difference, keeps the
  -- ledger invariant.
  pub move-IsBalanced :
      (k : ℕ) (p : Product) (v : ℤ) (row : InventoryTransaction) (products : List Product)
      (ts : List InventoryTransaction)
      → env.orm.products.get k products ≡ some p
      → row.product ≡ p.id
      → v ≡ p.current_stock +ℤ signed_quantity row
      → IsBalanced products ts
      → IsBalanced
          (env.orm.products.update p.id (set_stock v) products)
          (env.orm.transactions.insert row ts)
  move-IsBalanced k p v row products ts found of_p moved balanced =
      let key : p.id ≡ k = env.orm.products.pk-get k products p found in
      rw key (move_key-IsBalanced k p v row products ts found (of_p ∙ key) moved balanced)
