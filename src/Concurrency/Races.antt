-- ===== src/Concurrency/Races.antt =====
-- Without the row lock at the read: a request that writes from a stock that it read before another
-- request's commit takes that commit off the stock.
use inventra.Prelude.{
  ==_refl, ◌⊎◌, inr, ℕ, ◌≡◌, refl, ap, ◌∙◌, inl, Bool, true, false, Bool-cases, none, some, List,
  [], ◌∷◌,
}
use inventra.Prelude.Int.{ℤ, ◌+ℤ◌}
use inventra.Concurrency.RowLock.{RowLock}
use inventra.Concurrency.Stock.{
  Request, waiting, read, saved, committed, is_locked, is_enough, new_stock, change, System, move,
  query, step, run, start, Event, go,
}
use inventra.Concurrency.Safety.{new_stock-eq}

module _ (row : RowLock) (locking : Bool) (request : ℕ → Request) where
  open row use {Lock, owner, release}

  -- the state after the commit of request `i` that wrote `w`
  abbrev settled : ℕ → ℤ → Lock → System row → System row
  settled i w l s = record {
    stock = w;
    ledger = s.ledger +ℤ change (request i);
    lock = l;
    phase = move row i committed (move row i (saved w) s.phase);
  }

  -- with the row free, a request that has read a sufficient stock writes and commits
  run-write :
      (i : ℕ) (v : ℤ) (es : List Event) (s : System row)
      → s.phase i ≡ read v
      → (owner s.lock ≡ none) ⊎ (owner s.lock ≡ some i)
      → is_enough (request i) v ≡ true
      → (l : Lock) × (owner l ≡ none)
        × (run row locking request (go i ∷ go i ∷ es) s
            ≡ run row locking request es (settled i (new_stock (request i) v) l s))
  unfolding run step query
  run-write i v es s at has enough =
      let got = row.acquire-free i s.lock has in
      let mine = (row.owner-acquire i s.lock got.0 got.1).1 in
      (release i got.0, row.owner-release_self i got.0 mine, rw (at, enough, got.1, ==_refl i) refl)

  -- the read of a request that finds the row free
  run-read :
      (i : ℕ) (es : List Event) (s : System row)
      → s.phase i ≡ waiting
      → owner s.lock ≡ none
      → (l : Lock) × ((owner l ≡ none) ⊎ (owner l ≡ some i))
        × (run row locking request (go i ∷ es) s
            ≡ run row locking request es
                (record s { lock = l; phase = move row i (read s.stock) s.phase }))
  unfolding run step query
  run-read i es s at free = elim (Bool-cases (is_locked locking (request i))) [
    | inl locked ↦
        let got = row.acquire-free i s.lock (inl free) in
        (got.0, inr (row.owner-acquire i s.lock got.0 got.1).1, rw (at, locked, got.1) refl)
    | inr unlocked ↦ (s.lock, inl free, rw (at, unlocked) refl)
  ]

  -- a read without the lock leaves the row free
  run-read_unlocked :
      (i : ℕ) (es : List Event) (s : System row)
      → s.phase i ≡ waiting
      → is_locked locking (request i) ≡ false
      → run row locking request (go i ∷ es) s
        ≡ run row locking request es (record s { phase = move row i (read s.stock) s.phase })
  unfolding run step query
  run-read_unlocked i es s at unlocked = rw (at, unlocked) refl

  -- When request 0 reads the product without the row lock and request 1 reads, writes and commits
  -- before request 0 writes, and the stock at the start suffices for each of them, both commit,
  -- the ledger has both changes, and the stock lacks the change of request 1.
  pub lost_update :
      (v : ℤ)
      → is_locked locking (request 0) ≡ false
      → is_enough (request 0) v ≡ true
      → is_enough (request 1) v ≡ true
      → let s =
          run row locking request (go 0 ∷ go 1 ∷ go 1 ∷ go 1 ∷ go 0 ∷ go 0 ∷ []) (start row v) in
        (s.phase 0 ≡ committed)
        × (s.phase 1 ≡ committed)
        × (s.ledger ≡ v +ℤ change (request 1) +ℤ change (request 0))
        × (s.stock ≡ v +ℤ change (request 0))
  unfolding run
  lost_update v unlocked enough0 enough1 =
      let s0 = start row v in
      let s1 : System row = record s0 { phase = move row 0 (read v) s0.phase } in
      let e1 = run-read_unlocked 0 (go 1 ∷ go 1 ∷ go 1 ∷ go 0 ∷ go 0 ∷ []) s0 refl unlocked in
      let r2 = run-read 1 (go 1 ∷ go 1 ∷ go 0 ∷ go 0 ∷ []) s1 refl row.owner-free in
      let s2 : System row = record s1 { lock = r2.0; phase = move row 1 (read v) s1.phase } in
      let r3 = run-write 1 v (go 0 ∷ go 0 ∷ []) s2 refl r2.1 enough1 in
      let s3 = settled 1 (new_stock (request 1) v) r3.0 s2 in
      let r4 = run-write 0 v [] s3 refl (inl r3.1) enough0 in
      let s4 = settled 0 (new_stock (request 0) v) r4.0 s3 in
      let e : run row locking request (go 0 ∷ go 1 ∷ go 1 ∷ go 1 ∷ go 0 ∷ go 0 ∷ []) s0 ≡ s4 =
        e1 ∙ r2.2 ∙ r3.2 ∙ r4.2 in
      (
        ap (λ s. s.phase 0) e,
        ap (λ s. s.phase 1) e,
        ap (λ s. s.ledger) e,
        ap (λ s. s.stock) e ∙ new_stock-eq (request 0) v,
      )
