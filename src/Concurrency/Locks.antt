-- ===== src/Concurrency/Locks.antt =====
-- The order in which the handlers of apps/inventory/views.py take row locks: first the row of the
-- order or return, then the products of the lines by `order_by("product_id")`. A step takes the
-- next lock; after the last one the transaction ends and gives them back. The locks that the
-- database takes by itself for foreign keys are left out.
use inventra.Prelude.{
  zero, ℕ, suc, ◌<◌, ◌≡◌, ◌⊎◌, Bool, false, Option, none, some, List, [], ◌∷◌, ◌==◌, map,
  if◌then◌else◌, All,
}
use inventra.Session.{Session}
use inventra.Django.Env.{Env}
use inventra.Inventory.Purchases
use inventra.Inventory.Sales.Complete
use inventra.Inventory.Models.{PurchaseOrderItem, SalesOrderItem}
use inventra.Concurrency.RowLock.{RowLock}
use inventra.Concurrency.Stock.{Event, go, abort}

-- a row: of an order or a return, or of a product, by its identifier
pub data Row : Type 0 where
  order product : ℕ → Row

abbrev pub is_same : Row → Row → Bool
is_same (order a) (order b) = a == b
is_same (product a) (product b) = a == b
is_same _ _ = false

-- orders and returns before products, and those by their identifiers
abbrev pub rank : Row → ℕ
rank (order a) = 0
rank (product a) = suc a

-- may the first be taken before the second? A row may also be taken again.
abbrev pub Precedes : Row → Row → Type 0
Precedes a b = (rank a < rank b) ⊎ (a ≡ b)

abbrev pub IsOrdered : List Row → Type 0
IsOrdered [] = Unit
IsOrdered (r ∷ rs) = All (Precedes r) rs × IsOrdered rs

-- a request that moves stock, by the order, return or product it is about
pub data Mutation : Type 0 where
  complete receive approve post : ℕ → Mutation

-- the rows that each handler locks, in this order; one that refuses stops before the last
module _ (env : Env) (s : Session) where
  unfoldable pub complete_rows : ℕ → List Row
  complete_rows pk = elim (env.orm.sales_orders.get pk s.sales_orders) [
    | none ↦ []
    | some so ↦
        order so.id
        ∷ map (λ (i : SalesOrderItem). product i.product)
            (Complete.ordered_items env so.id s.sales_order_items)
  ]

  unfoldable pub receive_rows : ℕ → List Row
  receive_rows pk = elim (env.orm.purchase_orders.get pk s.purchase_orders) [
    | none ↦ []
    | some po ↦
        order po.id
        ∷ map (λ (i : PurchaseOrderItem). product i.product)
            (Purchases.ordered_items env po.id s.purchase_order_items)
  ]

  unfoldable pub approve_rows : ℕ → List Row
  approve_rows pk = elim (env.orm.returns.get pk s.returns) [
    | none ↦ []
    | some ret ↦ order ret.id ∷ product ret.product ∷ []
  ]

  unfoldable pub post_rows : ℕ → List Row
  post_rows pk = product pk ∷ []

  unfoldable pub plan : Mutation → List Row
  plan (complete pk) = complete_rows pk
  plan (receive pk) = receive_rows pk
  plan (approve pk) = approve_rows pk
  plan (post pk) = post_rows pk

pub data Stage : Type 0 where
  -- the rows that the transaction has still to lock
  locking : List Row → Stage
  done : Stage

-- the steps that are left
abbrev pub work : Stage → ℕ
work done = 0
work (locking []) = 1
work (locking (r ∷ rs)) = suc (work (locking rs))

abbrev pub stage_of : List (List Row) → ℕ → Stage
stage_of [] i = done
stage_of (p ∷ ps) zero = locking p
stage_of (p ∷ ps) (suc i) = stage_of ps i

module _ (row : RowLock) where
  open row use {Lock, acquire, release}

  pub record Locks : Type 0 where
    pub stage : ℕ → Stage
    pub locks : Row → Lock

  abbrev pub set_stage : ℕ → Stage → (ℕ → Stage) → ℕ → Stage
  set_stage i p stage j = if j == i then p else stage j

  abbrev pub set_lock : Row → Lock → (Row → Lock) → Row → Lock
  set_lock r l locks x = if is_same x r then l else locks x

  -- the end of a transaction
  abbrev pub finish : ℕ → Locks → Locks
  finish i s = record { stage = set_stage i done s.stage; locks = λ r. release i (s.locks r) }

  abbrev pub with_row : ℕ → Row → List Row → Locks → Option Lock → Locks
  with_row i r rs s none = s
  with_row i r rs s (some l) = record {
    stage = set_stage i (locking rs) s.stage;
    locks = set_lock r l s.locks;
  }

  unfoldable pub next_lock : ℕ → Stage → Locks → Locks
  next_lock i done s = s
  next_lock i (locking []) s = finish i s
  next_lock i (locking (r ∷ rs)) s = with_row i r rs s (acquire i (s.locks r))

  unfoldable pub give_up : ℕ → Stage → Locks → Locks
  give_up i done s = s
  give_up i (locking rs) s = finish i s

  unfoldable pub step : Event → Locks → Locks
  unfolding next_lock give_up
  step (go i) s = next_lock i (s.stage i) s
  step (abort i) s = give_up i (s.stage i) s

  unfoldable pub run : List Event → Locks → Locks
  unfolding step
  run [] s = s
  run (e ∷ es) s = run es (step e s)

  -- no transaction has begun
  abbrev pub start : List (List Row) → Locks
  start plans = record { stage = stage_of plans; locks = λ r. row.free }
