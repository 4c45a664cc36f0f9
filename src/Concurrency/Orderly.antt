-- ===== src/Concurrency/Orderly.antt =====
-- What a transaction holds comes before what it has still to lock.
use inventra.Prelude.{
  ℕ, zero, suc, ◌≤◌, ◌≡◌, ◌≢◌, refl, sym, ap, ◌∙◌, subst, ◌⊎◌, inl, inr, true, Bool-cases,
  Option-cases, none, some, List, [], ◌∷◌, ◌==◌, eq_of_==, ne_of_==, if◌then◌else◌, All, arith,
  length,
}
use inventra.Concurrency.RowLock.{RowLock}
use inventra.Concurrency.Stock.{Event, go, abort}
use inventra.Concurrency.Locks.{
  Row, order, product, is_same, Precedes, IsOrdered, Stage, locking, done, stage_of, Locks,
  set_stage, set_lock, finish, with_row, next_lock, give_up, step, run, start,
}

pub is_same_eq : (a b : Row) → is_same a b ≡ true → a ≡ b
is_same_eq (order a) (order b) e = ap order (eq_of_== a b e)
is_same_eq (product a) (product b) e = ap product (eq_of_== a b e)
is_same_eq (order a) (product b) e = ground arith
is_same_eq (product a) (order b) e = ground arith

abbrev pub IsOrderedStage : Stage → Type 0
IsOrderedStage done = Unit
IsOrderedStage (locking rs) = IsOrdered rs

-- may a transaction at this stage hold the row?
abbrev pub MayHold : Row → Stage → Type 0
MayHold r done = ⊥
MayHold r (locking rs) = All (Precedes r) rs

module _ (row : RowLock) (n : ℕ) where
  open row use {Lock, owner, acquire, release}

  pub record IsOrderly (s : Locks row) : Type 0 where
    pub ordered : (i : ℕ) → IsOrderedStage (s.stage i)
    pub held : (r : Row) (i : ℕ) → owner (s.locks r) ≡ some i → MayHold r (s.stage i)
    -- there are `n` transactions
    pub ends : (i : ℕ) → n ≤ i → s.stage i ≡ done

  -- who has a row that `i` has given back is another
  owner-release : (i j : ℕ) (l : Lock) → owner (release i l) ≡ some j → (j ≢ i) × (owner l ≡ some j)
  owner-release i j l o = elim (Option-cases (owner l)) [
    | inl e ↦ let z = row.owner-release_other i l none e (λ e'. ground arith) in ground arith
    | inr (k, e) ↦ elim (Bool-cases (k == i)) [
      | inl same ↦
          let z = row.owner-release_self i l (e ∙ ap some (eq_of_== k i same)) in ground arith
      | inr other ↦
          let z = row.owner-release_other i l (some k) e (λ e'. ground arith) in ground arith
    ]
  ]

  set_stage-every :
      (P : ℕ → Stage → Type 0) (i : ℕ) (p : Stage) (stage : ℕ → Stage)
      → P i p
      → ((j : ℕ) → j ≢ i → P j (stage j))
      → (j : ℕ) → P j (set_stage row i p stage j)
  set_stage-every P i p stage mine theirs j = elim (Bool-cases (j == i)) [
    | inl same ↦ rw same (subst (λ k. P k p) (sym (eq_of_== j i same)) mine)
    | inr other ↦ rw other (theirs j (ne_of_== j i other))
  ]

  finish-IsOrderly : (i : ℕ) (s : Locks row) → IsOrderly s → IsOrderly (finish row i s)
  finish-IsOrderly i s h = record {
    ordered = set_stage-every (λ j. IsOrderedStage) i done s.stage tt (λ j ne. h.ordered j);
    held = λ r j o.
        let was = owner-release i j (s.locks r) o in
        set_stage-every (λ k p. owner (release i (s.locks r)) ≡ some k → MayHold r p) i done s.stage
          (λ o'. absurd ((owner-release i i (s.locks r) o').0 refl))
          (λ k ne o'. h.held r k (owner-release i k (s.locks r) o').1) j o;
    ends = λ j le.
        set_stage-every (λ k p. n ≤ k → p ≡ done) i done s.stage (λ le'. refl)
          (λ k ne le'. h.ends k le') j le;
  }

  with_row_held :
      (i : ℕ) (r : Row) (rs : List Row) (s : Locks row) (l : Lock)
      → IsOrderly s
      → s.stage i ≡ locking (r ∷ rs)
      → owner l ≡ some i
      → All (Precedes r) rs
      → (x : Row) (j : ℕ) → owner (set_lock row r l s.locks x) ≡ some j
      → MayHold x (set_stage row i (locking rs) s.stage j)
  with_row_held i r rs s l h at mine after x = elim (Bool-cases (is_same x r)) [
    | inl same ↦ λ j o.
        set_stage-every (λ k p. owner l ≡ some k → MayHold x p) i (locking rs) s.stage
          (λ o'. subst (λ y. All (Precedes y) rs) (sym (is_same_eq x r same)) after)
          (λ k ne o'. absurd (ne (ground arith))) j
          (subst (λ b. owner (if b then l else s.locks x) ≡ some j) same o)
    | inr other ↦ λ j o.
        set_stage-every (λ k p. owner (s.locks x) ≡ some k → MayHold x p) i (locking rs) s.stage
          (λ o'. (subst (MayHold x) at (h.held x i o')).1) (λ k ne o'. h.held x k o') j
          (subst (λ b. owner (if b then l else s.locks x) ≡ some j) other o)
  ]

  -- the next row comes after all that the transaction holds
  with_row-IsOrderly :
      (i : ℕ) (r : Row) (rs : List Row) (s : Locks row) (l : Lock)
      → IsOrderly s
      → s.stage i ≡ locking (r ∷ rs)
      → ((owner (s.locks r) ≡ none) ⊎ (owner (s.locks r) ≡ some i)) × (owner l ≡ some i)
      → IsOrderly (with_row row i r rs s (some l))
  with_row-IsOrderly i r rs s l h at got =
      let mine : IsOrdered (r ∷ rs) = subst IsOrderedStage at (h.ordered i) in
      record {
        ordered =
            set_stage-every (λ j. IsOrderedStage) i (locking rs) s.stage mine.1
              (λ j ne. h.ordered j);
        held = with_row_held i r rs s l h at got.1 mine.0;
        ends = λ j le.
            set_stage-every (λ k p. n ≤ k → p ≡ done) i (locking rs) s.stage
              (λ le'. let z = h.ends i le' in ground arith) (λ k ne le'. h.ends k le') j le;
      }

  next_lock-IsOrderly :
      (i : ℕ) (p : Stage) (s : Locks row)
      → s.stage i ≡ p
      → IsOrderly s
      → IsOrderly (next_lock row i p s)
  unfolding next_lock
  next_lock-IsOrderly i done s at h = h
  next_lock-IsOrderly i (locking []) s at h = finish-IsOrderly i s h
  next_lock-IsOrderly i (locking (r ∷ rs)) s at h = elim (Option-cases (acquire i (s.locks r))) [
    | inl e ↦ rw e h
    | inr (l, e) ↦ rw e (with_row-IsOrderly i r rs s l h at (row.owner-acquire i (s.locks r) l e))
  ]

  give_up-IsOrderly :
      (i : ℕ) (p : Stage) (s : Locks row) → IsOrderly s → IsOrderly (give_up row i p s)
  unfolding give_up
  give_up-IsOrderly i done s h = h
  give_up-IsOrderly i (locking rs) s h = finish-IsOrderly i s h

  pub step-IsOrderly : (e : Event) (s : Locks row) → IsOrderly s → IsOrderly (step row e s)
  unfolding step
  step-IsOrderly (go i) s h = next_lock-IsOrderly i (s.stage i) s refl h
  step-IsOrderly (abort i) s h = give_up-IsOrderly i (s.stage i) s h

  pub run-IsOrderly : (es : List Event) (s : Locks row) → IsOrderly s → IsOrderly (run row es s)
  unfolding run
  run-IsOrderly [] s h = h
  run-IsOrderly (e ∷ es) s h = run-IsOrderly es (step row e s) (step-IsOrderly e s h)

stage_of-IsOrdered :
    (ps : List (List Row)) → All IsOrdered ps → (i : ℕ) → IsOrderedStage (stage_of ps i)
stage_of-IsOrdered [] h i = tt
stage_of-IsOrdered (p ∷ ps) h zero = h.0
stage_of-IsOrdered (p ∷ ps) h (suc i) = stage_of-IsOrdered ps h.1 i

stage_of-ends : (ps : List (List Row)) (i : ℕ) → length ps ≤ i → stage_of ps i ≡ done
stage_of-ends [] i le = refl
stage_of-ends (p ∷ ps) zero le = absurd (omega arith)
stage_of-ends (p ∷ ps) (suc i) le = stage_of-ends ps i (omega arith)

pub start-IsOrderly :
    (row : RowLock) (ps : List (List Row))
    → All IsOrdered ps
    → IsOrderly row (length ps) (start row ps)
start-IsOrderly row ps h = record {
  ordered = stage_of-IsOrdered ps h;
  held = λ r i o. let z = row.owner-free in ground arith;
  ends = stage_of-ends ps;
}
