-- ===== src/Demo/Fixed.antt =====
-- A generator that always draws the first of what it may, which behaves as `Random` asks.
use inventra.Prelude.{
  Pairwise, IsDistinct, ℕ, zero, suc, ◌≤◌, ◌≡◌, refl, ap, true, Option, none, some, List, [], ◌∷◌,
  length, All, arith, leb, if◌then◌else◌,
}
use inventra.Prelude.Int.{ℤ, ◌≤ℤ◌, leb_ℤ}
use inventra.Demo.Random.{Random}

abbrev pub take : {A : Type 0} → ℕ → List A → List A
take zero xs = []
take (suc n) [] = []
take (suc n) (x ∷ xs) = x ∷ take n xs

length-take : {A : Type 0} (n : ℕ) (xs : List A) → n ≤ length xs → length (take n xs) ≡ n
length-take zero xs le = refl
length-take (suc n) [] le = absurd (omega arith)
length-take (suc n) (x ∷ xs) le = ap suc (length-take n xs (omega arith))

All-take : {A : Type 0} (P : A → Type 0) (n : ℕ) (xs : List A) → All P xs → All P (take n xs)
All-take P zero xs h = tt
All-take P (suc n) [] h = tt
All-take P (suc n) (x ∷ xs) h = (h.0, All-take P n xs h.1)

Pairwise-take :
    {A : Type 0} (P : A → A → Type 0) (n : ℕ) (xs : List A) → Pairwise P xs → Pairwise P (take n xs)
Pairwise-take P zero xs h = tt
Pairwise-take P (suc n) [] h = tt
Pairwise-take P (suc n) (x ∷ xs) h = (All-take (P x) n xs h.0, Pairwise-take P n xs h.1)

abbrev pub sample_first : {A : Type 0} → List A → ℕ → Unit {0} → Option (List A × Unit {0})
sample_first xs k g = if leb k (length xs) then some (take k xs, g) else none

abbrev pub choose_first : {A : Type 0} → List A → Unit {0} → Option (A × Unit {0})
choose_first [] g = none
choose_first (x ∷ xs) g = some (x, g)

abbrev pub draw_first : ℤ → ℤ → Unit {0} → Option (ℤ × Unit {0})
draw_first a b g = if leb_ℤ a b then some (a, g) else none

pub draw_first-range :
    (a b : ℤ) (g : Unit {0})
    → a ≤ℤ b
    → (n : ℤ) × (g' : Unit {0}) × (draw_first a b g ≡ some (n, g')) × (a ≤ℤ n) × (n ≤ℤ b)
draw_first-range a b g le =
    let yes_may : leb_ℤ a b ≡ true = ground arith in (a, g, rw yes_may refl, omega arith, le)

pub sample_first-items :
    {A : Type 0} (xs : List A) (k : ℕ) (g : Unit {0}) (P : A → Type 0) (key : A → ℕ)
    → k ≤ length xs
    → All P xs
    → (ys : List A) × (g' : Unit {0}) × (sample_first xs k g ≡ some (ys, g'))
      × (length ys ≡ k)
      × All P ys
      × (IsDistinct key xs → IsDistinct key ys)
sample_first-items xs k g P key le h =
    let may : leb k (length xs) ≡ true = ground arith in
    (take k xs, g, rw may refl, length-take k xs le, All-take P k xs h, Pairwise-take _ k xs)

abbrev pub first_random : Random
first_random = record {
  Rng = Unit {0};
  uuid4 = λ n. n;
  randint = draw_first;
  is_below = λ percent g. (true, g);
  marked_up = λ cost g. (cost, g);
  choice = choose_first;
  sample = sample_first;
  randint-range = draw_first-range;
  choice-item = λ x xs g P h. (x, g, refl, h.0);
  sample-items = sample_first-items;
}
