-- ===== src/Django/Atomic.antt =====
-- The rule for a handler that runs a block under `transaction.atomic()` and then only reads.
use inventra.Prelude.{◌≡◌}
use inventra.Session.{Session, Db, Result, ok, raised, Action, settle, ◌>>=◌}
use inventra.Session.Outcome.{Returns, settle-Returns}
use inventra.Django.Env.{Env}

-- the action leaves the state alone, whether it returns or raises
abbrev pub IsReader : {A : Type 0} → Action A → Type 0
IsReader m = (s : Session) → (m s).1 ≡ s

module _ {A B : Type 0} (P : Db → Type 0) (k : A → Action B)
    (reads : (a : A) → IsReader (k a)) where
  reader_keeps :
      (r : Result A × Session)
      → P (r.1).db
      → P ((let (o, t) = r in inventra.Session.continue o k t).1).db
  reader_keeps (ok a, t) h = rw (reads a t) h
  reader_keeps (raised e, t) h = h

  pub atomic_then :
      (env : Env) (m : Action A) (s : Session)
      → P s.db
      → Returns (λ _ t. P t.db) (m s)
      → P (((env.atomic A m >>= k) s).1).db
  atomic_then env m s before after =
      rw (env.atomic_lem A m s)
        (reader_keeps (settle s (m s)) (settle-Returns P s (m s) before after))
