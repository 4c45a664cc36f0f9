-- ===== src/Demo/Rules.antt =====
-- Rules for builders: a builder returns, and what it returns moves the stock by its ledger rows.
use inventra.Prelude.{
  Pairwise, Bool-cases, inl, inr, eq_of_==, ne_of_==, ℕ, suc, ◌≡◌, refl, sym, ap, ◌∙◌, true, false,
  none, some, List, [], ◌∷◌, ◌++◌, ◌==◌, map, All, length, if◌then◌else◌, sum_by-nil, sum_by-cons,
  sum_by-append, arith, ==_refl, Option,
}
use inventra.Prelude.Int.{ℤ, pos, ◌+ℤ◌, ◌≤ℤ◌, +ℤ_zero, +ℤ_assoc}
use inventra.Inventory.Models.{InventoryTransaction}
use inventra.Inventory.Stock.{contribution, balance, signed_quantity}
use inventra.Demo.Random.{Random}
use inventra.Demo.Builder.{State, Build, continue, collect, join, ◌>>=◌}

pub balance-nil : (k : ℕ) → balance k [] ≡ pos 0
unfolding balance
balance-nil k = sum_by-nil (contribution k)

pub balance-cons :
    (k : ℕ) (t : InventoryTransaction) (ts : List InventoryTransaction)
    → balance k (t ∷ ts) ≡ contribution k t +ℤ balance k ts
unfolding balance
balance-cons k t ts = sum_by-cons (contribution k) t ts

pub balance-append :
    (k : ℕ) (ts us : List InventoryTransaction)
    → balance k (ts ++ us) ≡ balance k ts +ℤ balance k us
unfolding balance
balance-append k ts us = sum_by-append (contribution k) ts us

-- from one stock to another by ledger rows, and never below zero
abbrev pub Moves : (ℕ → ℤ) → (ℕ → ℤ) → List InventoryTransaction → Type 0
Moves before after ts =
    (k : ℕ) → (after k ≡ before k +ℤ balance k ts) × (pos 0 ≤ℤ before k → pos 0 ≤ℤ after k)

pub Moves-none : (stock : ℕ → ℤ) → Moves stock stock []
Moves-none stock k = (rw (balance-nil k) (sym (+ℤ_zero (stock k))), λ h. h)

pub Moves-append :
    (a b c : ℕ → ℤ) (ts us : List InventoryTransaction)
    → Moves a b ts
    → Moves b c us
    → Moves a c (ts ++ us)
Moves-append a b c ts us h h' k =
    let (e, n) = h k in
    let (e', n') = h' k in
    (
      e'
          ∙ ap (λ x. x +ℤ balance k us) e
          ∙ +ℤ_assoc (a k) (balance k ts) (balance k us)
          ∙ ap (◌+ℤ◌ (a k)) (sym (balance-append k ts us)),
      λ z. n' (n z),
    )

pub Moves-still :
    (a b c : ℕ → ℤ) (ts : List InventoryTransaction) → Moves a b ts → Moves b c [] → Moves a c ts
Moves-still a b c ts h h' k =
    let (e, n) = h k in
    let (e', n') = h' k in (e' ∙ ap (◌+ℤ◌ (b k)) (balance-nil k) ∙ +ℤ_zero (b k) ∙ e, λ z. n' (n z))

pub balance-single : (k : ℕ) (t : InventoryTransaction) → balance k (t ∷ []) ≡ contribution k t
balance-single k t = balance-cons k t [] ∙ ap (◌+ℤ◌ (contribution k t)) (balance-nil k) ∙ +ℤ_zero _

-- one product's stock is set, with one ledger row for the difference
pub Moves-put :
    (stock : ℕ → ℤ) (j : ℕ) (v : ℤ) (t : InventoryTransaction)
    → t.product ≡ j
    → v ≡ stock j +ℤ signed_quantity t
    → (pos 0 ≤ℤ stock j → pos 0 ≤ℤ v)
    → Moves stock (λ k. if k == j then v else stock k) (t ∷ [])
Moves-put stock j v t at e n k = elim (Bool-cases (k == j)) [
  | inl same ↦
      let here : k ≡ j = eq_of_== k j same in
      let mine : (t.product == k) ≡ true = rw (at, here) (==_refl j) in
      rw (same, balance-single k t, mine) (rw here (e, n))
  | inr other ↦
      let ne = ne_of_== k j other in
      let theirs : (t.product == k) ≡ false = ground arith in
      rw (other, balance-single k t, theirs) (sym (+ℤ_zero (stock k)), λ h. h)
]

pub All-keep :
    {A : Type 0} (P Q R : A → Type 0) (xs : List A)
    → ((x : A) → R x → P x → Q x)
    → All R xs
    → All P xs
    → All Q xs
All-keep P Q R [] f r p = tt
All-keep P Q R (x ∷ xs) f r p = (f x r.0 p.0, All-keep P Q R xs f r.1 p.1)

module _ {random : Random} where
  -- the builder returns, with such a result
  abbrev pub Ensures :
      {A : Type 0} → (A → State random → Type 0) → Option (A × State random) → Type 0
  Ensures Q none = ⊥
  Ensures Q (some (a, s)) = Q a s

  pub weaken :
      {A : Type 0} (P Q : A → State random → Type 0) (r : Option (A × State random))
      → Ensures P r
      → ((a : A) (s : State random) → P a s → Q a s)
      → Ensures Q r
  weaken P Q none h f = h
  weaken P Q (some (a, s)) h f = f a s h

  pub bind-Ensures :
      {A B : Type 0} (P : A → State random → Type 0) (Q : B → State random → Type 0)
      (m : Build random A) (f : A → Build random B) (s : State random)
      → Ensures P (m s)
      → ((a : A) (s' : State random) → P a s' → Ensures Q (f a s'))
      → Ensures Q ((m >>= f) s)
  bind-Ensures {A} P Q m f s h k = go (m s) h
    where
      go : (r : Option (A × State random)) → Ensures P r → Ensures Q (continue f r)
      go none h' = absurd h'
      go (some (a, s')) h' = k a s' h'

  -- a loop whose passes move the stock by their ledger rows, and leave what the later ones need
  pub collect-Moves :
      {A B : Type 0} (Ready : A → State random → Type 0) (Apart : A → A → Type 0)
      (Good : B → Type 0) (txns : B → List InventoryTransaction) (f : A → Build random B)
      → ((x : A) (s : State random)
          → Ready x s
          → Ensures
              (λ y s'.
                Moves s.stock s'.stock (txns y)
                × Good y
                × ((x' : A) → Apart x x' → Ready x' s → Ready x' s'))
              (f x s))
      → (xs : List A) (s : State random) → All (λ x. Ready x s) xs
      → Pairwise Apart xs
      → Ensures
          (λ ys s'.
            Moves s.stock s'.stock (join (map txns ys)) × All Good ys × (length ys ≡ length xs))
          (collect f xs s)
  unfolding collect
  collect-Moves Ready Apart Good txns f step [] s ready apart = (Moves-none s.stock, tt, refl)
  collect-Moves Ready Apart Good txns f step (x ∷ xs) s ready apart =
      bind-Ensures _ _ (f x) _ s (step x s ready.0) λ y s1 (moved, good, keeps).
        bind-Ensures _ _ (collect f xs) _ s1
          (collect-Moves Ready Apart Good txns f step xs s1
            (All-keep (λ z. Ready z s) (λ z. Ready z s1) (Apart x) xs keeps apart.0 ready.1)
            apart.1)
          λ ys s2 (moved', good', len). (
            Moves-append s.stock s1.stock s2.stock (txns y) (join (map txns ys)) moved moved',
            (good, good'),
            ap suc len,
          )
