-- ===== src/Demo/Products.antt =====
-- The seeded products: as many as asked for, different, and in stock.
use inventra.Prelude.{
  IsDistinct, ℕ, zero, suc, ◌≤◌, ◌≡◌, refl, sym, ap, ◌∙◌, Bool-cases, inl, inr, false, List, [],
  ◌∷◌, ◌==◌, eq_of_==, All, arith, length,
}
use inventra.Prelude.Int.{pos, ◌≤ℤ◌}
use inventra.Accounts.Models.{User}
use inventra.Catalog.Models.{Category, Supplier, Product}
use inventra.Demo.Random.{Random, Labels}
use inventra.Demo.Builder.{State, collect}
use inventra.Demo.Seeds.{seed_product}
use inventra.Demo.Orders.{range, seed_products}
use inventra.Demo.Rules.{Ensures, weaken, bind-Ensures, All-keep}
use inventra.Demo.Lines.{All-Unit}
use inventra.Demo.Balance.{AreSeeds}

length-range : (start n : ℕ) → length (range start n) ≡ n
length-range start zero = refl
length-range start (suc n) = ap suc (length-range (suc start) n)

module _ (random : Random) where
  -- the identifier was drawn at or after the draw
  abbrev pub IsDrawn : ℕ → Product → Type 0
  IsDrawn n p = (m : ℕ) × (n ≤ m) × (p.id ≡ random.uuid4 m)

module _ (random : Random) (different : (a b : ℕ) → random.uuid4 a ≡ random.uuid4 b → a ≡ b)
    (labels : Labels) (c : Category) (cs : List Category) (v : Supplier) (vs : List Supplier)
    (u : User) (us : List User) where
  seed_product-Ensures :
      (i : ℕ) (s : State random)
      → Ensures
          (λ p s'.
            (p.id ≡ random.uuid4 s.draws) × (s'.draws ≡ suc s.draws) × (pos 0 ≤ℤ p.current_stock))
          (seed_product labels (c ∷ cs) (v ∷ vs) (u ∷ us) i s)
  unfolding seed_product
  seed_product-Ensures i s =
      let (cost, g1, e1, _, _) = random.randint-range (pos 500) (pos 5000) s.rng (omega arith) in
      let (stock, g2, e2, lo, _) =
        random.randint-range (pos 50) (pos 500) (random.marked_up cost g1).1 (omega arith) in
      let (threshold, g3, e3, _, _) = random.randint-range (pos 5) (pos 50) g2 (omega arith) in
      let (category, g4, e4, _) = random.choice-item c cs g3 (λ x. Unit {0}) (tt, All-Unit cs) in
      let (supplier, g5, e5, _) = random.choice-item v vs g4 (λ x. Unit {0}) (tt, All-Unit vs) in
      let (creator, g6, e6, _) = random.choice-item u us g5 (λ x. Unit {0}) (tt, All-Unit us) in
      rw (e1, e2, e3, e4, e5, e6) (refl, omega arith, omega arith)

  earlier-differs :
      (n : ℕ) (p q : Product)
      → p.id ≡ random.uuid4 n
      → IsDrawn random (suc n) q
      → (q.id == p.id) ≡ false
  earlier-differs n p q e (m, le, e') = elim (Bool-cases (q.id == p.id)) [
    | inl same ↦
        let clash = different m n (sym e' ∙ eq_of_== q.id p.id same ∙ e) in absurd (omega arith)
    | inr other ↦ other
  ]

  collect-Ensures :
      (is : List ℕ) (s : State random)
      → Ensures
          (λ ps s'.
            (length ps ≡ length is)
            × All (IsDrawn random s.draws) ps
            × IsDistinct (λ p. p.id) ps
            × All (λ p. pos 0 ≤ℤ p.current_stock) ps)
          (collect (seed_product labels (c ∷ cs) (v ∷ vs) (u ∷ us)) is s)
  unfolding collect
  collect-Ensures [] s = (refl, tt, tt, tt)
  collect-Ensures (i ∷ is) s =
      bind-Ensures _ _ (seed_product labels (c ∷ cs) (v ∷ vs) (u ∷ us) i) _ s
        (seed_product-Ensures i s)
        λ p s1 (id, next, some_stock).
          bind-Ensures _ _ (collect (seed_product labels (c ∷ cs) (v ∷ vs) (u ∷ us)) is) _ s1
            (collect-Ensures is s1)
            λ ps s2 (len, drawn, apart, stocked).
              let later : All (IsDrawn random (suc s.draws)) ps =
                All-keep (IsDrawn random s1.draws) (IsDrawn random (suc s.draws)) (λ q. Unit {0}) ps
                  (λ q _ (m, le, e). (m, omega arith, e)) (All-Unit ps) drawn in
              (
                ap suc len,
                (
                  (s.draws, omega arith, id),
                  All-keep (IsDrawn random (suc s.draws)) (IsDrawn random s.draws) (λ q. Unit {0})
                      ps (λ q _ (m, le, e). (m, omega arith, e)) (All-Unit ps) later,
                ),
                (
                  All-keep (IsDrawn random (suc s.draws)) _ (λ q. Unit {0}) ps
                      (λ q _ d. earlier-differs s.draws p q id d) (All-Unit ps) later,
                  apart,
                ),
                (some_stock, stocked),
              )

  pub seed_products-Ensures :
      (n : ℕ) (s : State random)
      → 3 ≤ n
      → Ensures
          (λ ps s'. (length ps ≡ n) × AreSeeds ps × All (IsDrawn random s.draws) ps)
          (seed_products labels n (c ∷ cs) (v ∷ vs) (u ∷ us) s)
  unfolding seed_products
  seed_products-Ensures n s enough =
      weaken _ _ (collect (seed_product labels (c ∷ cs) (v ∷ vs) (u ∷ us)) (range 1 n) s)
        (collect-Ensures (range 1 n) s)
        λ ps s' (len, drawn, apart, stocked).
          let size = len ∙ length-range 1 n in
          (size, record { enough = omega arith; apart = apart; nonneg = stocked }, drawn)

  -- Seeding at least three products returns as many products as asked for, with different
  -- identifiers and no negative stock, if there are a category, a supplier and a user to choose
  -- from and no identifier is drawn twice.
  pub seed_products-AreSeeds :
      (n : ℕ) (s : State random)
      → 3 ≤ n
      → Ensures
          (λ ps s'. (length ps ≡ n) × AreSeeds ps)
          (seed_products labels n (c ∷ cs) (v ∷ vs) (u ∷ us) s)
  seed_products-AreSeeds n s enough =
      weaken _ _ (seed_products labels n (c ∷ cs) (v ∷ vs) (u ∷ us) s)
        (seed_products-Ensures n s enough) λ ps s' (len, seeds, drawn). (len, seeds)
