-- ===== src/Concurrency/Deadlock.antt =====
-- No deadlock: the holder of the row that a transaction waits for waits, if at all, for a later
-- row.
use inventra.Prelude.{
  ℕ, zero, suc, ◌+◌, ◌<◌, ◌≤◌, ◌≡◌, ◌≢◌, refl, sym, ap, ◌∙◌, subst, ◌⊎◌, inl, inr, Bool-cases,
  Option-cases, some, List, [], ◌∷◌, ◌==◌, ltb, eq_of_==, ne_of_==, All, arith, length, map,
}
use inventra.Concurrency.RowLock.{RowLock}
use inventra.Concurrency.Stock.{Event, go}
use inventra.Concurrency.Locks.{
  Row, rank, Precedes, IsOrdered, Stage, locking, done, work, Locks, set_stage, next_lock, step,
  run, start,
}
use inventra.Concurrency.Orderly.{
  MayHold, IsOrderly, run-IsOrderly, step-IsOrderly, start-IsOrderly,
}

-- the row that a transaction wants, as a number from 1; 0 for none
abbrev wish : Stage → ℕ
wish done = 0
wish (locking []) = 0
wish (locking (r ∷ rs)) = suc (rank r)

total : ℕ → (ℕ → Stage) → ℕ
total zero stage = 0
total (suc m) stage = work (stage m) + total m stage

below-suc :
    (P : ℕ → Type 0) (m : ℕ) → P m → ((i : ℕ) → suc i ≤ m → P i) → (i : ℕ) → suc i ≤ suc m → P i
below-suc P m last rest i le = elim (Bool-cases (i == m)) [
  | inl same ↦ subst P (sym (eq_of_== i m same)) last
  | inr other ↦ let ne = ne_of_== i m other in rest i (omega arith)
]

bounded : (n : ℕ) (f : ℕ → ℕ) → (b : ℕ) × ((i : ℕ) → suc i ≤ n → f i ≤ b)
bounded zero f = (0, λ i le. absurd (omega arith))
bounded (suc n) f =
    let rest = bounded n f in
    (
      f n + rest.0,
      λ i le. elim (Bool-cases (i == n)) [
        | inl same ↦ let e = ap f (eq_of_== i n same) in omega arith
        | inr other ↦ let ne = ne_of_== i n other in let z = rest.1 i (omega arith) in omega arith
      ],
    )

module _ (row : RowLock) where
  open row use {Lock, owner, acquire}

  total-beyond :
      (m i : ℕ) (p : Stage) (stage : ℕ → Stage)
      → m ≤ i
      → total m (set_stage row i p stage) ≡ total m stage
  unfolding total
  total-beyond zero i p stage le = refl
  total-beyond (suc m) i p stage le =
      let rest = total-beyond m i p stage (omega arith) in ground arith

  total-set_stage :
      (m i : ℕ) (p : Stage) (stage : ℕ → Stage)
      → suc i ≤ m
      → total m (set_stage row i p stage) + work (stage i) ≡ total m stage + work p
  unfolding total
  total-set_stage zero i p stage le = absurd (omega arith)
  total-set_stage (suc m) i p stage le = elim (Bool-cases (m == i)) [
    | inl same ↦
        let e = eq_of_== m i same in
        let rest = total-beyond m i p stage (omega arith) in
        let w = ap (λ k. work (stage k)) e in ground arith
    | inr other ↦
        let ne = ne_of_== m i other in
        let rest = total-set_stage m i p stage (omega arith) in ground arith
  ]

  -- transaction `i` waits for a row that another has
  abbrev Waits : Locks row → ℕ → Row → Type 0
  Waits s i r =
      (rs : List Row) × (j : ℕ) × (s.stage i ≡ locking (r ∷ rs))
      × (owner (s.locks r) ≡ some j)
      × (j ≢ i)

  -- what the next query of a transaction does
  abbrev Next : ℕ → Locks row → ℕ → Type 0
  Next n s i =
      (s.stage i ≡ done)
      ⊎ ((total n (step row (go i) s).stage < total n s.stage) ⊎ ((r : Row) × Waits s i r))

  next_lock-next :
      (n i : ℕ) (p : Stage) (s : Locks row)
      → s.stage i ≡ p
      → suc i ≤ n
      → (p ≡ done)
        ⊎ ((total n (next_lock row i p s).stage < total n s.stage) ⊎ ((r : Row) × Waits s i r))
  unfolding next_lock
  next_lock-next n i done s at le = inl refl
  next_lock-next n i (locking []) s at le =
      let z = total-set_stage n i done s.stage le in let w = ap work at in inr (inl (omega arith))
  next_lock-next n i (locking (r ∷ rs)) s at le = elim (Option-cases (acquire i (s.locks r))) [
    | inr (l, e) ↦
        let z = total-set_stage n i (locking rs) s.stage le in
        let w = ap work at in inr (inl (rw e (omega arith)))
    | inl e ↦ elim (Option-cases (owner (s.locks r))) [
      | inl free ↦ let got = row.acquire-free i (s.locks r) (inl free) in ground arith
      | inr (j, has) ↦ elim (Bool-cases (j == i)) [
        | inl same ↦
            let got = row.acquire-free i (s.locks r) (inr (has ∙ ap some (eq_of_== j i same))) in
            ground arith
        | inr other ↦ inr (inr (r, (rs, j, at, has, ne_of_== j i other)))
      ]
    ]
  ]

  -- some transaction's next query moves on, or each has ended or waits
  search_ready :
      (n m : ℕ) (s : Locks row)
      → m ≤ n
      → ((i : ℕ) × (total n (step row (go i) s).stage < total n s.stage))
        ⊎ ((i : ℕ) → suc i ≤ m → (s.stage i ≡ done) ⊎ ((r : Row) × Waits s i r))
  unfolding step
  search_ready n zero s le = inr (λ i less. absurd (omega arith))
  search_ready n (suc m) s le =
      let Still : ℕ → Type 0 = λ i. (s.stage i ≡ done) ⊎ ((r : Row) × Waits s i r) in
      elim (search_ready n m s (omega arith)) [
        | inl found ↦ inl found
        | inr rest ↦ elim (next_lock-next n m (s.stage m) s refl (omega arith)) [
          | inr (inl less) ↦ inl (m, less)
          | inl ended ↦ inr (below-suc Still m (inl ended) rest)
          | inr (inr waits) ↦ inr (below-suc Still m (inr waits) rest)
        ]
      ]

  holder-below :
      (n j : ℕ) (s : Locks row) (r : Row)
      → IsOrderly row n s
      → owner (s.locks r) ≡ some j
      → suc j ≤ n
  holder-below n j s r h has = elim (Bool-cases (ltb j n)) [
    | inl less ↦ ground arith
    | inr more ↦ absurd (subst (MayHold r) (h.ends j (ground arith)) (h.held r j has))
  ]

  -- the holder of the row that is waited for waits itself, for a later row
  later_holder :
      (n i : ℕ) (s : Locks row) (r : Row)
      → IsOrderly row n s
      → ((j : ℕ) → suc j ≤ n → (s.stage j ≡ done) ⊎ ((x : Row) × Waits s j x))
      → Waits s i r
      → (j : ℕ) × (x : Row) × (suc j ≤ n) × (rank r < rank x) × Waits s j x
  later_holder n i s r h still (rs, j, at, has, ne) =
      let may = h.held r j has in
      elim (still j (holder-below n j s r h has)) [
        | inl ended ↦ absurd (subst (MayHold r) ended may)
        | inr (x, w) ↦
            let before : All (Precedes r) (x ∷ w.0) = subst (MayHold r) w.2 may in
            elim before.0 [
              | inl less ↦ (j, x, holder-below n j s r h has, less, w)
              | inr same ↦
                  let owned = subst (λ y. owner (s.locks y) ≡ some w.1) (sym same) w.3 in
                  let ne' = w.4 in ground arith
            ]
      ]

  -- so nobody waits when nobody moves
  no_wait :
      (fuel n b i : ℕ) (s : Locks row) (r : Row)
      → IsOrderly row n s
      → ((j : ℕ) → suc j ≤ n → (s.stage j ≡ done) ⊎ ((x : Row) × Waits s j x))
      → ((j : ℕ) → suc j ≤ n → wish (s.stage j) ≤ b)
      → suc i ≤ n
      → Waits s i r
      → b ≤ rank r + fuel
      → ⊥
  no_wait zero n b i s r h still top le w enough =
      let z = top i le in let e = ap wish w.2 in omega arith
  no_wait (suc fuel) n b i s r h still top le w enough =
      let (j, x, below, later, w') = later_holder n i s r h still w in
      no_wait fuel n b j s x h still top below w' (omega arith)

  finish_from :
      (fuel n : ℕ) (s : Locks row)
      → IsOrderly row n s
      → total n s.stage < fuel
      → (turns : List ℕ) × ((i : ℕ) → (run row (map go turns) s).stage i ≡ done)
  unfolding run
  finish_from zero n s h le = absurd (omega arith)
  finish_from (suc k) n s h le = elim (search_ready n n s (omega arith)) [
    | inl (i, less) ↦
        let rest =
          finish_from k n (step row (go i) s) (step-IsOrderly row n (go i) s h) (omega arith) in
        (i ∷ rest.0, rest.1)
    | inr still ↦
        let top = bounded n (λ j. wish (s.stage j)) in
        (
          [],
          λ i. elim (Bool-cases (ltb i n)) [
            | inr more ↦ h.ends i (ground arith)
            | inl less ↦ elim (still i (ground arith)) [
              | inl ended ↦ ended
              | inr (r, w) ↦
                  absurd (no_wait top.0 n top.0 i s r h still top.1 (ground arith) w (omega arith))
            ]
          ],
        )
  ]

  -- from any point of any schedule, by lock queries and ends alone
  pub plans_finish :
      (plans : List (List Row)) (es : List Event)
      → All IsOrdered plans
      → (turns : List ℕ) × ((i : ℕ)
          → (run row (map go turns) (run row es (start row plans))).stage i ≡ done)
  plans_finish plans es h =
      let n = length plans in
      let s = run row es (start row plans) in
      finish_from (suc (total n s.stage)) n s
        (run-IsOrderly row n es (start row plans) (start-IsOrderly row plans h)) (omega arith)
