-- ===== src/Concurrency/Stock.antt =====
-- Overlapping requests that change the stock of one product, as steps on the row of that product:
-- `complete` of a one-line sales order, `receive` of a one-line purchase order, `approve` and the
-- write-off of apps/inventory/views.py, and an update through `ProductViewSet`. A step is one
-- query:
-- the read of the row, the write, and the commit with the ledger row that the transaction has
-- inserted. A query that has to wait for the row's lock changes nothing.
use inventra.Prelude.{
  ℕ, Bool, true, false, not, Option, none, some, List, [], ◌∷◌, ◌==◌, if◌then◌else◌,
}
use inventra.Prelude.Int.{ℤ, pos, ◌+ℤ◌, ◌-ℤ◌, ltb_ℤ}
use inventra.Concurrency.RowLock.{RowLock}

pub data Request : Type 0 where
  -- `complete`, `post` of a write-off, `receive` and `approve`, with the quantity
  sale write_off receipt restock : ℤ → Request
  -- `PUT` or `PATCH` of a product that does not name the stock
  edit : Request

pub data Phase : Type 0 where
  waiting : Phase
  -- the row has been read with this stock
  read : ℤ → Phase
  -- this stock has been written, and not committed
  saved : ℤ → Phase
  committed : Phase
  -- the handler has answered without a write, or its transaction was rolled back
  ended : Phase

-- does the read take the row's lock? `locking` is `settings.INVENTORY_LOCKING_ENABLED`
unfoldable pub is_locked : Bool → Request → Bool
is_locked locking (sale quantity) = locking
is_locked locking (write_off quantity) = true
is_locked locking (receipt quantity) = true
is_locked locking (restock quantity) = true
is_locked locking edit = false

-- the test before the write
unfoldable pub is_enough : Request → ℤ → Bool
is_enough (sale quantity) stock = not (ltb_ℤ stock quantity)
is_enough (write_off quantity) stock = not (ltb_ℤ stock quantity)
is_enough (receipt quantity) stock = true
is_enough (restock quantity) stock = true
is_enough edit stock = true

-- the stock that is written, from the one that was read
unfoldable pub new_stock : Request → ℤ → ℤ
new_stock (sale quantity) stock = stock -ℤ quantity
new_stock (write_off quantity) stock = stock -ℤ quantity
new_stock (receipt quantity) stock = stock +ℤ quantity
new_stock (restock quantity) stock = stock +ℤ quantity
new_stock edit stock = stock

-- what the request adds to the ledger
unfoldable pub change : Request → ℤ
change (sale quantity) = pos 0 -ℤ quantity
change (write_off quantity) = pos 0 -ℤ quantity
change (receipt quantity) = quantity
change (restock quantity) = quantity
change edit = pos 0

-- what happens next: the next query of a request, or its failure
pub data Event : Type 0 where
  go abort : ℕ → Event

module _ (row : RowLock) where
  open row use {Lock, acquire, release}

  -- the committed stock, the committed ledger, the row's lock, and where each request stands
  pub record System : Type 0 where
    pub stock : ℤ
    pub ledger : ℤ
    pub lock : Lock
    pub phase : ℕ → Phase

  -- request `i` moves to a phase
  abbrev pub move : ℕ → Phase → (ℕ → Phase) → ℕ → Phase
  move i p phase j = if j == i then p else phase j

  abbrev pub with_lock : ℕ → Phase → System → Option Lock → System
  with_lock i p s none = s
  with_lock i p s (some l) = record s { lock = l; phase = move i p s.phase }

  module _ (locking : Bool) (request : ℕ → Request) where
    -- the next query of request `i`, by the phase that it stands in
    unfoldable pub query : ℕ → Phase → System → System
    unfolding is_locked is_enough
    query i waiting s =
        if is_locked locking (request i)
        then with_lock i (read s.stock) s (acquire i s.lock)
        else record s { phase = move i (read s.stock) s.phase }
    query i (read stock) s =
        if is_enough (request i) stock
        then with_lock i (saved (new_stock (request i) stock)) s (acquire i s.lock)
        else record s { lock = release i s.lock; phase = move i ended s.phase }
    query i (saved stock) s = record s {
      stock = stock;
      ledger = s.ledger +ℤ change (request i);
      lock = release i s.lock;
      phase = move i committed s.phase;
    }
    query i committed s = s
    query i ended s = s

    -- a failure rolls the transaction back, unless it has been committed
    unfoldable pub fail : ℕ → Phase → System → System
    fail i committed s = s
    fail i _ s = record s { lock = release i s.lock; phase = move i ended s.phase }

    unfoldable pub step : Event → System → System
    unfolding query fail
    step (go i) s = query i (s.phase i) s
    step (abort i) s = fail i (s.phase i) s

    -- a schedule: which request is next
    unfoldable pub run : List Event → System → System
    unfolding step
    run [] s = s
    run (e ∷ es) s = run es (step e s)

  -- no request has begun
  abbrev pub start : ℤ → System
  start stock = record { stock = stock; ledger = stock; lock = row.free; phase = λ i. waiting }
