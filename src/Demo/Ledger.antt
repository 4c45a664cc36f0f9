-- ===== src/Demo/Ledger.antt =====
-- The seeded data in the database.
use inventra.Prelude.{
  IsDistinct, Bool-cases, inl, inr, refl, none, ◌==◌, ℕ, ◌≡◌, sym, ap, ◌∙◌, some, List, [], ◌∷◌,
  All, keep, subst, arith,
}
use inventra.Prelude.Int.{ℤ, pos, ◌≤ℤ◌, ◌+ℤ◌, +ℤ_zero, zero-+ℤ}
use inventra.Accounts.Models.{User}
use inventra.Catalog.Models.{Product}
use inventra.Inventory.Models.{InventoryTransaction, Return}
use inventra.Inventory.Stock.{balance, contribution, set_stock}
use inventra.Inventory.Ledger.{get-set_stock}
use inventra.Session.{Db}
use inventra.Django.Env.{Env}
use inventra.Demo.Random.{Random, Labels}
use inventra.Demo.Builder.{State}
use inventra.Demo.Orders.{Orders, is_manager, bulk_update, write, seed_orders}
use inventra.Demo.Rules.{Moves, Ensures, weaken, All-keep}
use inventra.Demo.Lines.{All-Unit}
use inventra.Demo.Balance.{AreSeeds, seed_orders-Agrees}

module _ (env : Env) (stock : ℕ → ℤ) where
  -- the row with the key, if there is one, has the stock of the dictionary
  abbrev IsSettled : ℕ → List Product → Type 0
  IsSettled k rows =
      (q : Product) → env.orm.products.get k rows ≡ some q → q.current_stock ≡ stock k

  update-IsSettled :
      (j k : ℕ) (rows : List Product)
      → IsSettled k rows
      → IsSettled k (env.orm.products.update j (set_stock (stock j)) rows)
  update-IsSettled j k rows h q e =
      let law = get-set_stock env j k (stock j) rows in ground (arith, h q)

  update-settles :
      (j : ℕ) (rows : List Product)
      → IsSettled j (env.orm.products.update j (set_stock (stock j)) rows)
  update-settles j rows q e = let law = get-set_stock env j j (stock j) rows in ground arith

  bulk_update-IsSettled :
      (k : ℕ) (ps rows : List Product)
      → IsSettled k rows
      → IsSettled k (bulk_update env.orm stock ps rows)
  unfolding bulk_update
  bulk_update-IsSettled k [] rows h = h
  bulk_update-IsSettled k (p ∷ ps) rows h =
      bulk_update-IsSettled k ps _ (update-IsSettled p.id k rows h)

  bulk_update-settles :
      (ps rows : List Product) → All (λ p. IsSettled p.id (bulk_update env.orm stock ps rows)) ps
  unfolding bulk_update
  bulk_update-settles [] rows = tt
  bulk_update-settles (p ∷ ps) rows =
      (bulk_update-IsSettled p.id ps _ (update-settles p.id rows), bulk_update-settles ps _)

module _ (env : Env) where
  -- the table has the product, with some stock
  abbrev pub IsListed : List Product → Product → Type 0
  IsListed rows p = (v : ℤ) × (env.orm.products.get p.id rows ≡ some (set_stock v p))

  update-IsListed :
      (j : ℕ) (v : ℤ) (rows : List Product) (p : Product)
      → IsListed rows p
      → IsListed (env.orm.products.update j (set_stock v) rows) p
  update-IsListed j v rows p (w, found) = elim (Bool-cases (p.id == j)) [
    | inl same ↦ (v, get-set_stock env j p.id v rows ∙ rw (same, found) refl)
    | inr other ↦ (w, get-set_stock env j p.id v rows ∙ rw (other, found) refl)
  ]

  bulk_update-IsListed :
      (stock : ℕ → ℤ) (ps rows : List Product) (p : Product)
      → IsListed rows p
      → IsListed (bulk_update env.orm stock ps rows) p
  unfolding bulk_update
  bulk_update-IsListed stock [] rows p h = h
  bulk_update-IsListed stock (q ∷ ps) rows p h =
      bulk_update-IsListed stock ps _ p (update-IsListed q.id (stock q.id) rows p h)

  -- the last writes of the command keep the products that it has created
  pub write-IsListed :
      (stock : ℕ → ℤ) (products : List Product) (made : Orders × List Return) (db : Db)
      → IsDistinct (λ p. p.id) products
      → All (λ p. env.orm.products.get p.id db.products ≡ none) products
      → let created : Db = record db {
        products = env.orm.products.bulk_create products db.products;
      } in
        All (λ p. IsListed (write env.orm products stock made created).products p) products
  unfolding write
  write-IsListed stock products made db apart free =
      let rows = env.orm.products.bulk_create products db.products in
      All-keep (λ p. env.orm.products.get p.id rows ≡ some p)
        (IsListed (bulk_update env.orm stock products rows)) (λ p. Unit {0}) products
        (λ p _ found. bulk_update-IsListed stock products rows p (p.current_stock, found))
        (All-Unit products) (env.orm.products.get-bulk_create products db.products apart free)

balance-write :
    (k : ℕ) (env : Env) (rows ts : List InventoryTransaction)
    → balance k (env.orm.transactions.bulk_create rows ts) ≡ balance k rows +ℤ balance k ts
unfolding balance
balance-write k env rows ts = env.orm.transactions.sum-bulk_create (contribution k) rows ts

-- a product row after the writes
module _ (env : Env) (after : Db) where
  abbrev pub IsAccounted : Product → Type 0
  IsAccounted p =
      (q : Product)
      → env.orm.products.get p.id after.products ≡ some q
      → (q.current_stock ≡ balance p.id after.transactions) × (pos 0 ≤ℤ q.current_stock)

module _ (env : Env) where
  write-IsAccounted :
      (products : List Product) (stock : ℕ → ℤ) (made : Orders × List Return) (db : Db)
      → Moves (λ k. pos 0) stock made.0.transactions
      → All (λ p. balance p.id db.transactions ≡ pos 0) products
      → All (λ p. IsAccounted env (write env.orm products stock made db) p) products
  unfolding write
  write-IsAccounted products stock (rows, returns) db moves fresh =
      All-keep (λ p. IsSettled env stock p.id (bulk_update env.orm stock products db.products)) _
        (λ p. balance p.id db.transactions ≡ pos 0) products
        (λ p none_yet settled q e.
          let has = settled q e in
          let (sum, nonneg) = moves p.id in
          let total =
            balance-write p.id env rows.transactions db.transactions
            ∙ ap (◌+ℤ◌ (balance p.id rows.transactions)) none_yet
            ∙ +ℤ_zero _ in
          (
            has ∙ sum ∙ zero-+ℤ _ ∙ sym total,
            subst (λ v. pos 0 ≤ℤ v) (sym has) (nonneg (omega arith)),
          ))
        fresh (bulk_update-settles env stock products db.products)

  -- Seeding orders returns, and when its rows have been written, the stock of every seeded product
  -- in the database is the sum of the product's ledger rows and not below zero; it is given at
  -- least three products with different identifiers, no negative stock and no ledger rows, and
  -- users among whom there is an admin or a manager.
  pub seed_orders-IsAccounted :
      (labels : Labels) (num_orders : ℕ) (products : List Product) (m : User) (ms : List User)
      (u : User) (us : List User) {random : Random} (s : State random) (db : Db)
      → AreSeeds products
      → keep is_manager (u ∷ us) ≡ m ∷ ms
      → All (λ p. balance p.id db.transactions ≡ pos 0) products
      → Ensures
          (λ made s'.
            All (λ p. IsAccounted env (write env.orm products s'.stock made db) p) products)
          (seed_orders labels num_orders products (u ∷ us) s)
  seed_orders-IsAccounted labels num_orders products m ms u us s db h managers fresh =
      weaken _ _ (seed_orders labels num_orders products (u ∷ us) s)
        (seed_orders-Agrees labels num_orders products m ms u us s h managers)
        (λ made s' moves. write-IsAccounted products s'.stock made db moves fresh)
