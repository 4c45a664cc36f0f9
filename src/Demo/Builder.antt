-- ===== src/Demo/Builder.antt =====
-- Builders, which draw from the random generator and keep the stock of each product in a
-- dictionary.
use inventra.Prelude.{
  ℕ, ◌+◌, Bool, String, Option, none, some, List, [], ◌∷◌, ◌++◌, ◌==◌, ltb, if◌then◌else◌,
}
use inventra.Prelude.Int.{ℤ, ltb_ℤ}
use inventra.Inventory.Models.{InventoryTransaction, TransactionType}
use inventra.Demo.Random.{Random}

pub record State (random : Random) : Type 0 where
  pub rng : random.Rng
  -- how often `uuid.uuid4` has been called
  pub draws : ℕ
  -- `timezone.now()`
  pub now : ℕ
  -- the dictionary `stock`, whose keys are the seeded products; the code asks for no other
  pub stock : ℕ → ℤ

-- `none` is an exception, which undoes the command's transaction
abbrev pub Build : Random → Type 0 → Type 0
Build random A = State random → Option (A × State random)

module _ {random : Random} where
  abbrev pub pure : {A : Type 0} → A → Build random A
  pure a s = some (a, s)

  abbrev pub gets : {A : Type 0} → (State random → A) → Build random A
  gets f s = some (f s, s)

  abbrev pub continue :
      {A B : Type 0} → (A → Build random B) → Option (A × State random) → Option (B × State random)
  continue f none = none
  continue f (some (a, s)) = f a s

  -- `stock[k] = v`
  abbrev pub put : ℕ → ℤ → Build random Unit
  put k v s = some (tt, record s { stock = λ j. if j == k then v else s.stock j })

  -- a draw that raises or moves the generator
  abbrev pub moved :
      {A : Type 0} → State random → Option (A × random.Rng) → Option (A × State random)
  moved s none = none
  moved s (some (a, g)) = some (a, record s { rng = g })

  abbrev pub randint : ℤ → ℤ → Build random ℤ
  randint a b s = moved s (random.randint a b s.rng)

  abbrev pub choice : {A : Type 0} → List A → Build random A
  choice xs s = moved s (random.choice xs s.rng)

  abbrev pub sample : {A : Type 0} → List A → ℕ → Build random (List A)
  sample xs k s = moved s (random.sample xs k s.rng)

  abbrev pub is_below : ℕ → Build random Bool
  is_below percent s = moved s (some (random.is_below percent s.rng))

  abbrev pub marked_up : ℤ → Build random ℤ
  marked_up cost s = moved s (some (random.marked_up cost s.rng))

  -- `uuid.uuid4()`
  abbrev pub new_id : Build random ℕ
  new_id s = some (random.uuid4 s.draws, record s { draws = s.draws + 1 })

  -- `xs[0]`
  abbrev pub first_of : {A : Type 0} → List A → Build random A
  first_of [] s = none
  first_of (x ∷ xs) s = some (x, s)

infixl 5 ◌>>=◌ ◌>>◌
abbrev pub ◌>>=◌ :
    {random : Random} {A B : Type 0} → Build random A → (A → Build random B) → Build random B
(m >>= f) s = continue f (m s)

abbrev pub ◌>>◌ :
    {random : Random} {A B : Type 0} → Build random A → Build random B → Build random B
m >> k = m >>= λ _. k

-- a comprehension or a loop over a list
unfoldable pub collect :
    {random : Random} {A B : Type 0} → (A → Build random B) → List A → Build random (List B)
collect f [] = pure []
collect f (x ∷ xs) = let rest = collect f xs in do y ← f x; ys ← rest; pure (y ∷ ys)

-- `InventoryTransaction(id=uuid.uuid4(), ...)`
unfoldable pub transaction :
    {random : Random}
    → ℕ
    → ℤ
    → TransactionType
    → Option ℕ
    → Option String
    → Option ℕ
    → Build random InventoryTransaction
transaction product quantity transaction_type reference_id reason created_by = do
  id ← new_id
  now ← gets (λ s. s.now)
  pure (record {
    id = id;
    product = product;
    quantity = quantity;
    transaction_type = transaction_type;
    reference_id = reference_id;
    reason = reason;
    created_at = now;
    created_by = created_by;
  })

abbrev pub min : ℕ → ℕ → ℕ
min a b = if ltb b a then b else a

abbrev pub max : ℕ → ℕ → ℕ
max a b = if ltb a b then b else a

abbrev pub min_ℤ : ℤ → ℤ → ℤ
min_ℤ a b = if ltb_ℤ b a then b else a

-- `txns.extend(...)` over the lines of an order
abbrev pub join : {A : Type 0} → List (List A) → List A
join [] = []
join (xs ∷ rest) = xs ++ join rest
