-- ===== src/Tests/Overlaps.antt =====
-- Overlapping requests on one product, and the order of locks at the shop.
use inventra.Prelude.{ℕ, ◌≡◌, refl, true, false, List, [], ◌∷◌, arith, map}
use inventra.Prelude.Int.{pos, negsuc, ◌+ℤ◌, ◌-ℤ◌, ◌≤ℤ◌}
use inventra.Core.Checks.{Settings, locking_kill_switch_guard}
use inventra.Concurrency.RowLock.{row_lock}
use inventra.Concurrency.Stock.{
  Request, sale, is_locked, is_enough, change, new_stock, committed, query, fail, step, run, start,
  Event, go, abort,
}
use inventra.Concurrency.Locks
use inventra.Concurrency.Locks.{complete, receive, plan, done}
use inventra.Concurrency.Progress.{mutations_finish}
use inventra.Concurrency.Deployed.{deployed_keeps_stock}
use inventra.Concurrency.Races.{lost_update}
use inventra.Tests.Shop.{env, shop}

abbrev settings : Settings
settings = record { inventory_locking_enabled = true; debug = false }

settings-passed : locking_kill_switch_guard settings ≡ []
unfolding locking_kill_switch_guard
settings-passed = refl

-- every request sells two
abbrev pairs : ℕ → Request
pairs i = sale (pos 2)

abbrev queries : List Event
queries = go 0 ∷ go 1 ∷ go 0 ∷ go 0 ∷ go 1 ∷ abort 2 ∷ go 1 ∷ go 1 ∷ []

deployed_keeps_stock_example :
    let s = run row_lock true pairs queries (start row_lock (pos 3)) in
    (s.stock ≡ s.ledger) × (pos 0 ≤ℤ s.stock)
deployed_keeps_stock_example =
    deployed_keeps_stock row_lock settings pairs queries (pos 3) settings-passed refl
      (λ i. omega arith) (λ i e. ground arith) (omega arith)

lost_update_example :
    let s =
      run row_lock false pairs
        (go 0 ∷ go 1 ∷ go 1 ∷ go 1 ∷ go 0 ∷ go 0 ∷ [])
        (start row_lock (pos 3)) in
    (s.phase 0 ≡ committed)
    × (s.phase 1 ≡ committed)
    × (s.ledger ≡ pos 3 +ℤ change (sale (pos 2)) +ℤ change (sale (pos 2)))
    × (s.stock ≡ pos 3 +ℤ change (sale (pos 2)))
unfolding is_locked is_enough
lost_update_example = lost_update row_lock false pairs (pos 3) refl refl refl

mutations_finish_example :
    let reached =
      Locks.run row_lock
        (go 0 ∷ go 1 ∷ [])
        (Locks.start row_lock (map (plan env shop) (complete 30 ∷ receive 20 ∷ []))) in
    (turns : List ℕ) × ((i : ℕ) → (Locks.run row_lock (map go turns) reached).stage i ≡ done)
mutations_finish_example =
    mutations_finish env shop row_lock (complete 30 ∷ receive 20 ∷ []) (go 0 ∷ go 1 ∷ [])

-- two sales of two, of three: with the lock one of them is refused
locked_sales :
    let s = run row_lock true pairs queries (start row_lock (pos 3)) in
    (s.stock ≡ pos 1) × (s.ledger ≡ pos 1)
unfolding is_locked is_enough change new_stock query fail step run ◌+ℤ◌ ◌-ℤ◌
locked_sales = (refl, refl)

-- without it both are made, and the ledger is below zero
unlocked_sales :
    let s =
      run row_lock false pairs
        (go 0 ∷ go 1 ∷ go 1 ∷ go 1 ∷ go 0 ∷ go 0 ∷ [])
        (start row_lock (pos 3)) in
    (s.stock ≡ pos 1) × (s.ledger ≡ negsuc 0)
unfolding is_locked is_enough change new_stock query fail step run ◌+ℤ◌ ◌-ℤ◌
unlocked_sales = (refl, refl)
