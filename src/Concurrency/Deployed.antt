-- ===== src/Concurrency/Deployed.antt =====
-- A deployment whose settings pass the system check of apps/core/checks.py.
use inventra.Prelude.{ℕ, ◌≡◌, ◌≢◌, refl, true, false, List, []}
use inventra.Prelude.Int.{ℤ, pos, ◌≤ℤ◌}
use inventra.Core.Checks.{Settings, locking_kill_switch_guard, locking_kill_switch_guard-passed}
use inventra.Concurrency.RowLock.{RowLock}
use inventra.Concurrency.Stock.{
  Request, sale, write_off, receipt, restock, edit, is_locked, Event, run, start,
}
use inventra.Concurrency.Safety.{IsProper, run_keeps_stock}

is_locked-but_edit : (r : Request) → r ≢ edit → is_locked true r ≡ true
unfolding is_locked
is_locked-but_edit (sale q) ne = refl
is_locked-but_edit (write_off q) ne = refl
is_locked-but_edit (receipt q) ne = refl
is_locked-but_edit (restock q) ne = refl
is_locked-but_edit edit ne = absurd (ne refl)

-- With settings that pass the system check outside DEBUG, the stock of a product is the sum of its ledger and not below zero after any schedule of the reads, writes, commits and failures of overlapping requests on it: sales and receipts of orders with a single line, write-offs and approved returns. It is given that the stock was the sum of the ledger and not below zero at the start, that no quantity is negative and that no request is an update through the product endpoint.
pub deployed_keeps_stock :
    (row : RowLock) (settings : Settings) (request : ℕ → Request) (es : List Event) (stock : ℤ)
    → locking_kill_switch_guard settings ≡ []
    → settings.debug ≡ false
    → ((i : ℕ) → IsProper (request i))
    → ((i : ℕ) → request i ≢ edit)
    → pos 0 ≤ℤ stock
    → let s = run row settings.inventory_locking_enabled request es (start row stock) in
      (s.stock ≡ s.ledger) × (pos 0 ≤ℤ s.stock)
deployed_keeps_stock row settings request es stock passed production proper stockmoves n =
    let on = locking_kill_switch_guard-passed settings passed production in
    run_keeps_stock row settings.inventory_locking_enabled request
      (λ i. rw on (is_locked-but_edit (request i) (stockmoves i))) proper es stock n
