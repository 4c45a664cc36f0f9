-- ===== src/Concurrency/RowLock.antt =====
-- The lock of one row, which belongs to the database and is a parameter: `SELECT ... FOR UPDATE`
-- and `UPDATE` take it for the transaction, which has it until it commits or is rolled back.
use inventra.Prelude.{
  ℕ, sym, ap, ◌∙◌, ◌≡◌, ◌≢◌, refl, ◌⊎◌, inl, inr, Option, none, some, ◌==◌, eq_of_==, Bool-cases,
  if◌then◌else◌, arith,
}

pub record RowLock : Type 1 where
  pub Lock : Type 0
  pub free : Lock
  -- the transaction that has the row
  pub owner : Lock → Option ℕ
  -- `none`: the transaction has to wait
  pub acquire : ℕ → Lock → Option Lock
  -- the end of the transaction
  pub release : ℕ → Lock → Lock
  pub owner-free : owner free ≡ none
  pub owner-acquire :
      (i : ℕ) (l l' : Lock)
      → acquire i l ≡ some l'
      → ((owner l ≡ none) ⊎ (owner l ≡ some i)) × (owner l' ≡ some i)
  pub acquire-free :
      (i : ℕ) (l : Lock)
      → ((owner l ≡ none) ⊎ (owner l ≡ some i))
      → (l' : Lock) × (acquire i l ≡ some l')
  pub owner-release_self : (i : ℕ) (l : Lock) → owner l ≡ some i → owner (release i l) ≡ none
  pub owner-release_other :
      (i : ℕ) (l : Lock) (j : Option ℕ) → owner l ≡ j → j ≢ some i → owner (release i l) ≡ j

-- the lock as the number of its transaction
abbrev pub take : ℕ → Option ℕ → Option (Option ℕ)
take i none = some (some i)
take i (some j) = if j == i then some (some i) else none

abbrev pub drop : ℕ → Option ℕ → Option ℕ
drop i none = none
drop i (some j) = if j == i then none else some j

pub owner-take :
    (i : ℕ) (l l' : Option ℕ) → take i l ≡ some l' → ((l ≡ none) ⊎ (l ≡ some i)) × (l' ≡ some i)
owner-take i none l' e = (inl refl, ground arith)
owner-take i (some j) l' e = elim (Bool-cases (j == i)) [
  | inl same ↦ (inr (ap some (eq_of_== j i same)), ground arith)
  | inr other ↦ ground arith
]

pub take-free :
    (i : ℕ) (l : Option ℕ) → ((l ≡ none) ⊎ (l ≡ some i)) → (l' : Option ℕ) × (take i l ≡ some l')
take-free i none has = (some i, refl)
take-free i (some j) (inl e) = ground arith
take-free i (some j) (inr e) = (some i, ground arith)

pub owner-drop_self : (i : ℕ) (l : Option ℕ) → l ≡ some i → drop i l ≡ none
owner-drop_self i none e = refl
owner-drop_self i (some j) e = ground arith

pub owner-drop_other : (i : ℕ) (l : Option ℕ) (j : Option ℕ) → l ≡ j → j ≢ some i → drop i l ≡ j
owner-drop_other i none j e ne = e
owner-drop_other i (some k) j e ne = elim (Bool-cases (k == i)) [
  | inl same ↦ absurd (ne (sym e ∙ ap some (eq_of_== k i same)))
  | inr other ↦ rw other e
]

abbrev pub row_lock : RowLock
row_lock = record {
  Lock = Option ℕ;
  free = none;
  owner = λ l. l;
  acquire = take;
  release = drop;
  owner-free = refl;
  owner-acquire = owner-take;
  acquire-free = take-free;
  owner-release_self = owner-drop_self;
  owner-release_other = owner-drop_other;
}
