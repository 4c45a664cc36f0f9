-- ===== src/Session/Keeps.antt =====
-- Actions that take the tables only to states in a given relation, whether they return or raise.
use inventra.Prelude.{
  ◌≡◌, refl, ◌∙◌, Bool, true, false, Option, none, some, List, [], ◌∷◌, if◌then◌else◌,
}
use inventra.Session.{
  Session, Db, Result, ok, raised, Error, Action, pure, gets, or_raise, raise_unless, modify,
  on_commit, collect, for_each, settle, Callback, ◌>>=◌,
}
use inventra.Session.Outcome.{bind_ends}
use inventra.Inventory.Requests.{when_given}
use inventra.Django.Env.{Env, draw}

-- a reflexive and transitive relation of the tables before and after
pub record Preorder : Type 1 where
  pub Rel : Db → Db → Type 0
  pub reflexive : (db : Db) → Rel db db
  pub transitive : (a b c : Db) → Rel a b → Rel b c → Rel a c

-- a part of the tables stays as it was
abbrev pub same : {X : Type 0} → (Db → X) → Preorder
same part = record {
  Rel = λ a b. part b ≡ part a;
  reflexive = λ db. refl;
  transitive = λ a b c e e'. e' ∙ e;
}

module _ (order : Preorder) where
  abbrev pub Keeps : {A : Type 0} → Action A → Type 0
  Keeps m = (s : Session) → order.Rel s.db ((m s).1).db

  pub pure-Keeps : {A : Type 0} (a : A) → Keeps (pure a)
  pure-Keeps a s = order.reflexive s.db

  pub gets-Keeps : {A : Type 0} (g : Session → A) → Keeps (gets g)
  gets-Keeps g s = order.reflexive s.db

  pub or_raise-Keeps : {A : Type 0} (o : Option A) (e : Error) → Keeps (or_raise o e)
  or_raise-Keeps none e s = order.reflexive s.db
  or_raise-Keeps (some a) e s = order.reflexive s.db

  pub raise_unless-Keeps : (b : Bool) (e : Error) → Keeps (raise_unless b e)
  raise_unless-Keeps true e s = order.reflexive s.db
  raise_unless-Keeps false e s = order.reflexive s.db

  pub modify-Keeps : (g : Db → Db) → ((db : Db) → order.Rel db (g db)) → Keeps (modify g)
  modify-Keeps g h s = h s.db

  pub draw-Keeps : (env : Env) → Keeps (draw env)
  unfolding draw
  draw-Keeps env s = order.reflexive s.db

  pub bind-Keeps :
      {A B : Type 0} (m : Action A) (k : A → Action B)
      → Keeps m
      → ((a : A) → Keeps (k a))
      → Keeps (m >>= k)
  bind-Keeps m k first rest s =
      bind_ends (λ t. order.Rel s.db t.db) m k s (first s)
        (λ a t e. order.transitive s.db t.db _ e (rest a t))

  pub if-Keeps :
      {A : Type 0} (b : Bool) (m n : Action A) → Keeps m → Keeps n → Keeps (if b then m else n)
  if-Keeps true m n h h' = h
  if-Keeps false m n h h' = h'

  pub when_given-Keeps :
      {A : Type 0} (o : Option A) (f : A → Action Unit)
      → ((a : A) → Keeps (f a))
      → Keeps (when_given o f)
  when_given-Keeps none f h s = order.reflexive s.db
  when_given-Keeps (some a) f h s = h a s

  pub collect-Keeps :
      {A B : Type 0} (f : A → Action B) (xs : List A)
      → ((x : A) → Keeps (f x))
      → Keeps (collect f xs)
  unfolding collect
  collect-Keeps f [] h s = order.reflexive s.db
  collect-Keeps f (x ∷ xs) h s =
      bind-Keeps (f x) _ (h x)
        (λ y. bind-Keeps (collect f xs) _ (collect-Keeps f xs h) (λ ys. pure-Keeps (y ∷ ys))) s

  pub for_each-Keeps :
      {A : Type 0} (f : A → Action Unit) (xs : List A)
      → ((x : A) → Keeps (f x))
      → Keeps (for_each f xs)
  unfolding for_each
  for_each-Keeps f [] h s = order.reflexive s.db
  for_each-Keeps f (x ∷ xs) h s = bind-Keeps (f x) _ (h x) (λ y. for_each-Keeps f xs h) s

  pub on_commit-Keeps : (c : Callback) → Keeps (on_commit c)
  on_commit-Keeps c s = order.reflexive s.db

  settle-Keeps :
      {A : Type 0} (s : Session) (r : Result A × Session)
      → order.Rel s.db (r.1).db
      → order.Rel s.db ((settle s r).1).db
  settle-Keeps s (ok a, t) h = h
  settle-Keeps s (raised e, t) h = order.reflexive s.db

  pub atomic-Keeps : {A : Type 0} (env : Env) (m : Action A) → Keeps m → Keeps (env.atomic A m)
  atomic-Keeps {A} env m h s = rw (env.atomic_lem A m s) (settle-Keeps s (m s) (h s))

-- the rules that do not speak of a write
pub ruleset runs = (
  pure-Keeps, gets-Keeps, or_raise-Keeps, raise_unless-Keeps, draw-Keeps, bind-Keeps, if-Keeps,
  when_given-Keeps, collect-Keeps, for_each-Keeps, on_commit-Keeps, atomic-Keeps,
)

pub ruleset keeps = (runs, modify-Keeps)
