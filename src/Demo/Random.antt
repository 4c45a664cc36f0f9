-- ===== src/Demo/Random.antt =====
-- The random generators of Python's library, which are a parameter: `none` is an exception.
use inventra.Prelude.{IsDistinct, ℕ, ◌≤◌, ◌≡◌, Bool, String, Option, some, List, ◌∷◌, length, All}
use inventra.Prelude.Int.{ℤ, ◌≤ℤ◌}

pub record Random : Type 1 where
  -- the state of the generator
  pub Rng : Type 0
  -- the n-th result of `uuid.uuid4()`, as a 128-bit number
  pub uuid4 : ℕ → ℕ
  -- `rng.randint(a, b)`
  pub randint : ℤ → ℤ → Rng → Option (ℤ × Rng)
  -- `rng.random() < percent / 100`
  pub is_below : ℕ → Rng → Bool × Rng
  -- `round(cost * rng.uniform(1.2, 2.5), 2)`, in cents
  pub marked_up : ℤ → Rng → ℤ × Rng
  -- `rng.choice(xs)`
  pub choice : {A : Type 0} → List A → Rng → Option (A × Rng)
  -- `rng.sample(xs, k)`: `k` items at different places
  pub sample : {A : Type 0} → List A → ℕ → Rng → Option (List A × Rng)
  pub randint-range :
      (a b : ℤ) (g : Rng)
      → a ≤ℤ b
      → (n : ℤ) × (g' : Rng) × (randint a b g ≡ some (n, g')) × (a ≤ℤ n) × (n ≤ℤ b)
  pub choice-item :
      {A : Type 0} (x : A) (xs : List A) (g : Rng) (P : A → Type 0)
      → All P (x ∷ xs)
      → (y : A) × (g' : Rng) × (choice (x ∷ xs) g ≡ some (y, g')) × P y
  pub sample-items :
      {A : Type 0} (xs : List A) (k : ℕ) (g : Rng) (P : A → Type 0) (key : A → ℕ)
      → k ≤ length xs
      → All P xs
      → (ys : List A) × (g' : Rng) × (sample xs k g ≡ some (ys, g'))
        × (length ys ≡ k)
        × All P ys
        × (IsDistinct key xs → IsDistinct key ys)

-- the f-strings of the command
pub record Labels : Type 0 where
  pub sku : ℕ → String
  pub product_name : ℕ → String
  pub customer_name : ℕ → String
  -- `f"INV-DEMO{n:06d}"`, as the number of an invoice
  pub invoice_number : ℕ → ℕ
