-- ===== src/Concurrency/Safety.antt =====
-- With the row locks, overlapping requests keep the ledger and never oversell.
use inventra.Prelude.{
  ℕ, ◌≡◌, ◌≢◌, refl, sym, subst, ap, ◌∙◌, ◌⊎◌, inl, inr, Bool, true, Bool-cases, Option-cases, none,
  some, List, [], ◌∷◌, ◌==◌, eq_of_==, ne_of_==, arith,
}
use inventra.Prelude.Int.{ℤ, pos, ◌+ℤ◌, ◌≤ℤ◌, int_laws}
use inventra.Concurrency.RowLock.{RowLock}
use inventra.Concurrency.Stock.{
  Request, sale, write_off, receipt, restock, edit, Phase, waiting, read, saved, committed, ended,
  is_locked, is_enough, new_stock, change, System, move, with_lock, query, fail, step, run, start,
  Event, go, abort,
}

-- the quantity is not negative, as the serializers and the columns ask
abbrev pub IsProper : Request → Type 0
IsProper (sale quantity) = pos 0 ≤ℤ quantity
IsProper (write_off quantity) = pos 0 ≤ℤ quantity
IsProper (receipt quantity) = pos 0 ≤ℤ quantity
IsProper (restock quantity) = pos 0 ≤ℤ quantity
IsProper edit = Unit

pub new_stock-eq : (r : Request) (v : ℤ) → new_stock r v ≡ v +ℤ change r
unfolding new_stock change
new_stock-eq (sale q) v = omega int_laws
new_stock-eq (write_off q) v = omega int_laws
new_stock-eq (receipt q) v = refl
new_stock-eq (restock q) v = refl
new_stock-eq edit v = omega int_laws

-- a write that passes its test leaves no negative stock
new_stock_nonneg :
    (r : Request) (v : ℤ) → IsProper r → pos 0 ≤ℤ v → is_enough r v ≡ true → pos 0 ≤ℤ new_stock r v
unfolding new_stock is_enough
new_stock_nonneg (sale q) v h n e = let le : q ≤ℤ v = ground arith in omega int_laws
new_stock_nonneg (write_off q) v h n e = let le : q ≤ℤ v = ground arith in omega int_laws
new_stock_nonneg (receipt q) v h n e = omega int_laws
new_stock_nonneg (restock q) v h n e = omega int_laws
new_stock_nonneg edit v h n e = n

module _ (row : RowLock) (locking : Bool) (request : ℕ → Request)
    (locks : (i : ℕ) → is_locked locking (request i) ≡ true)
    (proper : (i : ℕ) → IsProper (request i)) where
  open row use {Lock, owner, release}

  -- what a request that has the row knows of it
  abbrev Agrees : ℤ → Lock → ℕ → Phase → Type 0
  Agrees stock l i (read v) = (owner l ≡ some i) × (v ≡ stock)
  Agrees stock l i (saved w) = (owner l ≡ some i) × (w ≡ stock +ℤ change (request i)) × (pos 0 ≤ℤ w)
  Agrees stock l i _ = Unit

  pub record IsSafe (s : System row) : Type 0 where
    pub balanced : s.stock ≡ s.ledger
    pub nonneg : pos 0 ≤ℤ s.stock
    pub agrees : (i : ℕ) → Agrees s.stock s.lock i (s.phase i)

  -- while `i` has the row or nobody does, the others know nothing of it
  others_know_nothing :
      (i j : ℕ) (l l' : Lock) (v v' : ℤ) (p : Phase)
      → ((owner l ≡ none) ⊎ (owner l ≡ some i))
      → j ≢ i
      → Agrees v l j p
      → Agrees v' l' j p
  others_know_nothing i j l l' v v' waiting has ne h = tt
  others_know_nothing i j l l' v v' (read u) (inl e) ne h = cc
  others_know_nothing i j l l' v v' (read u) (inr e) ne h = ground arith
  others_know_nothing i j l l' v v' (saved u) (inl e) ne h = cc
  others_know_nothing i j l l' v v' (saved u) (inr e) ne h = ground arith
  others_know_nothing i j l l' v v' committed has ne h = tt
  others_know_nothing i j l l' v v' ended has ne h = tt

  others_keep :
      (i j : ℕ) (l : Lock) (v : ℤ) (p : Phase) → j ≢ i → Agrees v l j p → Agrees v (release i l) j p
  others_keep i j l v waiting ne h = tt
  others_keep i j l v (read u) ne h =
      (row.owner-release_other i l (some j) h.0 (λ e. ground arith), h.1)
  others_keep i j l v (saved u) ne h =
      (row.owner-release_other i l (some j) h.0 (λ e. ground arith), h.1, h.2)
  others_keep i j l v committed ne h = tt
  others_keep i j l v ended ne h = tt

  -- `i` moves to a phase, and the others stay
  move-Agrees :
      (i : ℕ) (p : Phase) (phase : ℕ → Phase) (v : ℤ) (l : Lock)
      → Agrees v l i p
      → ((j : ℕ) → j ≢ i → Agrees v l j (phase j))
      → (j : ℕ) → Agrees v l j (move row i p phase j)
  move-Agrees i p phase v l mine theirs j = elim (Bool-cases (j == i)) [
    | inl same ↦ rw same (subst (λ k. Agrees v l k p) (sym (eq_of_== j i same)) mine)
    | inr other ↦ rw other (theirs j (ne_of_== j i other))
  ]

  -- request `i`, which has the row or found it free, moves on with the stock, the ledger and the
  -- lock
  moves-IsSafe :
      (i : ℕ) (s : System row) (v w : ℤ) (l : Lock) (p : Phase)
      → IsSafe s
      → ((owner s.lock ≡ none) ⊎ (owner s.lock ≡ some i))
      → v ≡ w
      → pos 0 ≤ℤ v
      → Agrees v l i p
      → IsSafe (record { stock = v; ledger = w; lock = l; phase = move row i p s.phase })
  moves-IsSafe i s v w l p h has eq n mine = record {
    balanced = eq;
    nonneg = n;
    agrees =
        move-Agrees i p s.phase v l mine
          (λ j ne. others_know_nothing i j s.lock l s.stock v (s.phase j) has ne (h.agrees j));
  }

  -- request `i` ends without a write
  ends-IsSafe :
      (i : ℕ) (s : System row)
      → IsSafe s
      → IsSafe (record s { lock = release i s.lock; phase = move row i ended s.phase })
  ends-IsSafe i s h = record {
    balanced = h.balanced;
    nonneg = h.nonneg;
    agrees =
        move-Agrees i ended s.phase s.stock (release i s.lock) tt
          (λ j ne. others_keep i j s.lock s.stock (s.phase j) ne (h.agrees j));
  }

  -- a query that asks for the row
  with_lock-IsSafe :
      (i : ℕ) (p : Phase) (s : System row)
      → IsSafe s
      → ((l : Lock) → owner l ≡ some i → Agrees s.stock l i p)
      → IsSafe (with_lock row i p s (row.acquire i s.lock))
  with_lock-IsSafe i p s h mine = elim (Option-cases (row.acquire i s.lock)) [
    | inl e ↦ rw e h
    | inr (l, e) ↦
        let got = row.owner-acquire i s.lock l e in
        rw e (moves-IsSafe i s s.stock s.ledger l p h got.0 h.balanced h.nonneg (mine l got.1))
  ]

  -- the read, the write and the commit
  query-IsSafe :
      (i : ℕ) (p : Phase) (s : System row)
      → s.phase i ≡ p
      → IsSafe s
      → IsSafe (query row locking request i p s)
  unfolding query
  query-IsSafe i waiting s e h =
      rw (locks i) (with_lock-IsSafe i (read s.stock) s h (λ l o. (o, refl)))
  query-IsSafe i (read v) s e h =
      let knows : Agrees s.stock s.lock i (read v) =
        subst (Agrees s.stock s.lock i) e (h.agrees i) in
      elim (Bool-cases (is_enough (request i) v)) [
        | inl enough ↦ rw enough (
            with_lock-IsSafe i (saved (new_stock (request i) v)) s h (λ l o. (
              o,
              new_stock-eq (request i) v ∙ ap (λ u. u +ℤ change (request i)) knows.1,
              new_stock_nonneg (request i) v (proper i)
                  (subst (λ u. pos 0 ≤ℤ u) (sym knows.1) h.nonneg) enough,
            )))
        | inr short ↦ rw short (ends-IsSafe i s h)
      ]
  query-IsSafe i (saved w) s e h =
      let knows : Agrees s.stock s.lock i (saved w) =
        subst (Agrees s.stock s.lock i) e (h.agrees i) in
      moves-IsSafe i s w (s.ledger +ℤ change (request i)) (release i s.lock) committed h
        (inr knows.0) (knows.1 ∙ ap (λ u. u +ℤ change (request i)) h.balanced) knows.2 tt
  query-IsSafe i committed s e h = h
  query-IsSafe i ended s e h = h

  fail-IsSafe :
      (i : ℕ) (p : Phase) (s : System row) → IsSafe s → IsSafe (fail row locking request i p s)
  unfolding fail
  fail-IsSafe i waiting s h = ends-IsSafe i s h
  fail-IsSafe i (read v) s h = ends-IsSafe i s h
  fail-IsSafe i (saved w) s h = ends-IsSafe i s h
  fail-IsSafe i committed s h = h
  fail-IsSafe i ended s h = ends-IsSafe i s h

  run-IsSafe : (es : List Event) (s : System row) → IsSafe s → IsSafe (run row locking request es s)
  unfolding run step
  run-IsSafe [] s h = h
  run-IsSafe (go i ∷ es) s h =
      run-IsSafe es (query row locking request i (s.phase i) s)
        (query-IsSafe i (s.phase i) s refl h)
  run-IsSafe (abort i ∷ es) s h =
      run-IsSafe es (fail row locking request i (s.phase i) s) (fail-IsSafe i (s.phase i) s h)

  -- from the start, on any schedule
  pub run_keeps_stock :
      (es : List Event) (stock : ℤ)
      → pos 0 ≤ℤ stock
      → let s = run row locking request es (start row stock) in
        (s.stock ≡ s.ledger) × (pos 0 ≤ℤ s.stock)
  run_keeps_stock es stock n =
      let h =
        run-IsSafe es (start row stock)
          (record { balanced = refl; nonneg = n; agrees = λ i. tt }) in
      (h.balanced, h.nonneg)
