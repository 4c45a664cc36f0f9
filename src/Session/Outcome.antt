-- ===== src/Session/Outcome.antt =====
-- Statements about how an action ends, and the rules for loops and transactions.
use inventra.Prelude.{List, [], ◌∷◌}
use inventra.Session.{Session, Db, Result, ok, raised, Action, for_each, settle, ◌>>=◌, ◌>>◌}

-- `P` holds of the result and the state that are left, if the action returned
abbrev pub Returns : {A : Type 0} → (A → Session → Type 0) → Result A × Session → Type 0
Returns P (ok a, s) = P a s
Returns P (raised e, s) = Unit

pub map-Returns :
    {A : Type 0} (P Q : A → Session → Type 0) (r : Result A × Session)
    → ((a : A) (t : Session) → P a t → Q a t)
    → Returns P r
    → Returns Q r
map-Returns P Q (ok a, t) f h = f a t h
map-Returns P Q (raised e, t) f h = tt

continue-Returns :
    {A B : Type 0} (P : A → Session → Type 0) (Q : B → Session → Type 0) (r : Result A × Session)
    (k : A → Action B)
    → Returns P r
    → ((a : A) (t : Session) → P a t → Returns Q (k a t))
    → Returns Q (let (o, t) = r in inventra.Session.continue o k t)
continue-Returns P Q (ok a, t) k p rest = rest a t p
continue-Returns P Q (raised e, t) k p rest = tt

pub bind-Returns :
    {A B : Type 0} (P : A → Session → Type 0) (Q : B → Session → Type 0) (m : Action A)
    (k : A → Action B) (s : Session)
    → Returns P (m s)
    → ((a : A) (t : Session) → P a t → Returns Q (k a t))
    → Returns Q ((m >>= k) s)
bind-Returns P Q m k s p rest = continue-Returns P Q (m s) k p rest

-- what holds before each round holds after a loop that returned
pub for_each-Returns :
    {A : Type 0} (P : Session → Type 0) (f : A → Action Unit)
    → ((x : A) (s : Session) → P s → Returns (λ _ t. P t) (f x s))
    → (xs : List A) (s : Session) → P s
    → Returns (λ _ t. P t) (for_each f xs s)
unfolding for_each
for_each-Returns P f keep [] s h = h
for_each-Returns P f keep (x ∷ xs) s h =
    bind-Returns (λ _ t. P t) (λ _ t. P t) (f x) (λ _. for_each f xs) s (keep x s h)
      λ _ t p. for_each-Returns P f keep xs t p

-- A block under `atomic` either commits what it left, or raises and leaves the tables alone.
pub settle-Returns :
    {A : Type 0} (P : Db → Type 0) (s : Session) (r : Result A × Session)
    → P s.db
    → Returns (λ _ t. P t.db) r
    → P ((settle s r).1).db
settle-Returns P s (ok a, t) before after = after
settle-Returns P s (raised e, t) before after = before

-- what holds of the state after each of two actions, whether they return or raise
pub bind_ends :
    {A B : Type 0} (P : Session → Type 0) (m : Action A) (k : A → Action B) (s : Session)
    → P (m s).1
    → ((a : A) (t : Session) → P t → P (k a t).1)
    → P ((m >>= k) s).1
bind_ends P m k s p rest = ends (m s) p
  where
    ends :
        (r : Result _ × Session) → P r.1 → P (let (o, t) = r in inventra.Session.continue o k t).1
    ends (ok a, t) h = rest a t h
    ends (raised e, t) h = h
