-- ===== src/Core/Invalidation.antt =====
-- Invalidation by version: what was cached before a bump is not served after it.
use inventra.Prelude.{
  ℕ, suc, ◌≤◌, ◌≡◌, refl, ◌⊎◌, inl, inr, Bool, true, false, Option, none, some, ◌==◌, Bool-cases,
  Option-cases, arith, eq_of_==, ==_refl, ◌&&◌, if◌then◌else◌,
}
use inventra.Core.Cache.{
  Cache, set_version, get_version, bump_version, store, expire, is_success, answer, cached_response,
}

module _ (R : Type 0) where
  -- no response is stored under a version above the counter, or with no counter
  abbrev pub IsVersioned : Cache R → Type 0
  IsVersioned c =
      (n v e d : ℕ) (r : R)
      → c.responses n v e d ≡ some r
      → (k : ℕ) × (c.versions n ≡ some k) × (v ≤ k)

  stored-cases :
      (here : Bool) (x : Option R) (r r' : R)
      → (if here then some r else x) ≡ some r'
      → (here ≡ true) ⊎ (x ≡ some r')
  stored-cases true x r r' h = inl refl
  stored-cases false x r r' h = inr h

  expired_lem :
      (here : Bool) (x : Option R) (r : R) → (if here then none else x) ≡ some r → x ≡ some r
  expired_lem true x r h = cc
  expired_lem false x r h = h

  set_version-IsVersioned :
      (n k : ℕ) (c : Cache R)
      → ((j : ℕ) → c.versions n ≡ some j → j ≤ k)
      → IsVersioned c
      → IsVersioned (set_version R n k c)
  set_version-IsVersioned n k c above h m v e d r found =
      let (j, is, le) = h m v e d r found in
      elim (Bool-cases (m == n)) [
        | inl same ↦
            let key : m ≡ n = eq_of_== m n same in
            let bound : j ≤ k = above j (rw (← key) is) in (k, rw same refl, omega arith)
        | inr other ↦ (j, rw other is, le)
      ]

  bump_version-IsVersioned :
      (n : ℕ) (c : Cache R) → IsVersioned c → IsVersioned (bump_version R n c)
  unfolding bump_version
  bump_version-IsVersioned n c h = elim (Option-cases (c.versions n)) [
    | inl e ↦ rw (bump_version, e) (set_version-IsVersioned n 2 c (λ j is. cc) h)
    | inr (k, e) ↦
        rw (bump_version, e) (set_version-IsVersioned n (suc k) c (λ j is. ground arith) h)
  ]

  get_version-IsVersioned :
      (n : ℕ) (c : Cache R)
      → IsVersioned c
      → let (version, c') = get_version R n c in IsVersioned c' × (c'.versions n ≡ some version)
  unfolding get_version
  get_version-IsVersioned n c h = elim (Option-cases (c.versions n)) [
    | inl e ↦
        rw (get_version, e) (set_version-IsVersioned n 1 c (λ j is. cc) h, rw (==_refl n) refl)
    | inr (k, e) ↦ rw (get_version, e) (h, e)
  ]

  pub get_version-present :
      (n k : ℕ) (c : Cache R) → c.versions n ≡ some k → get_version R n c ≡ (k, c)
  unfolding get_version
  get_version-present n k c is = rw (get_version, is) refl

  store-IsVersioned :
      (n v e d : ℕ) (r : R) (c : Cache R)
      → c.versions n ≡ some v
      → IsVersioned c
      → IsVersioned (store R n v e d r c)
  store-IsVersioned n v e d r c is h n' v' e' d' r' found =
      let here : Bool = n' == n && (v' == v && (e' == e && d' == d)) in
      elim (stored-cases here (c.responses n' v' e' d') r r' found) [
        | inl same ↦
            let key : n' ≡ n = ground arith in
            let version : v' ≡ v = ground arith in (v, rw key is, omega arith)
        | inr other ↦ h n' v' e' d' r' other
      ]

  expire-IsVersioned :
      (n v e d : ℕ) (c : Cache R) → IsVersioned c → IsVersioned (expire R n v e d c)
  expire-IsVersioned n v e d c h n' v' e' d' r' found = h n' v' e' d' r' (
      expired_lem (n' == n && (v' == v && (e' == e && d' == d))) (c.responses n' v' e' d') r' found)

  bump_version-unused :
      (n e d : ℕ) (c : Cache R)
      → IsVersioned c
      → let c' = bump_version R n c in
        (k : ℕ) × (c'.versions n ≡ some k) × (c'.responses n k e d ≡ none)
  unfolding bump_version
  bump_version-unused n e d c h = elim (Option-cases (c.versions n)) [
    | inl is ↦
        rw (bump_version, is)
          (
            2,
            rw (==_refl n) refl,
            elim (Option-cases (c.responses n 2 e d)) [
              | inl free ↦ free
              | inr (r, found) ↦ let (j, is', _) = h n 2 e d r found in cc
            ],
          )
    | inr (k, is) ↦
        rw (bump_version, is)
          (
            suc k,
            rw (==_refl n) refl,
            elim (Option-cases (c.responses n (suc k) e d)) [
              | inl free ↦ free
              | inr (r, found) ↦ let (j, is', le) = h n (suc k) e d r found in ground arith
            ],
          )
  ]

  module _ (status_code : R → ℕ) (digest : ℕ → ℕ) where
    answer-IsVersioned :
        (n v e d : ℕ) (view : R) (c : Cache R) (found : Option R)
        → c.versions n ≡ some v
        → IsVersioned c
        → IsVersioned ((answer R status_code digest n v e d view c found).1)
    answer-IsVersioned n v e d view c (some r) is h = h
    answer-IsVersioned n v e d view c none is h =
        elim (Bool-cases (is_success R status_code digest view)) [
          | inl good ↦ rw good (store-IsVersioned n v e d view c is h)
          | inr bad ↦ rw bad h
        ]

    cached_response-IsVersioned :
        (n e scope : ℕ) (view : R) (c : Cache R)
        → IsVersioned c
        → IsVersioned ((cached_response R status_code digest n e scope view c).1)
    unfolding cached_response
    cached_response-IsVersioned n e scope view c h =
        let (v, c') = get_version R n c in
        let (h', is) = get_version-IsVersioned n c h in
        answer-IsVersioned n v e (digest scope) view c' (c'.responses n v e (digest scope)) is h'

    -- what the requests and the time make of an empty cache
    pub data Reachable : Cache R → Type 0 where
      start : Reachable (record { versions = λ n. none; responses = λ n v e d. none })
      looked_up :
          (n e scope : ℕ) (view : R) (c : Cache R)
          → Reachable c
          → Reachable ((cached_response R status_code digest n e scope view c).1)
      bumped : (n : ℕ) (c : Cache R) → Reachable c → Reachable (bump_version R n c)
      expired : (n v e d : ℕ) (c : Cache R) → Reachable c → Reachable (expire R n v e d c)

    pub Reachable-IsVersioned : (c : Cache R) → Reachable c → IsVersioned c
    Reachable-IsVersioned _ start = λ n v e d r found. cc
    Reachable-IsVersioned _ (looked_up n e scope view c reach) =
        cached_response-IsVersioned n e scope view c (Reachable-IsVersioned c reach)
    Reachable-IsVersioned _ (bumped n c reach) =
        bump_version-IsVersioned n c (Reachable-IsVersioned c reach)
    Reachable-IsVersioned _ (expired n v e d c reach) =
        expire-IsVersioned n v e d c (Reachable-IsVersioned c reach)

    -- Whatever was looked up, bumped and expired before, with one operation after the other: after
    -- `bump_version` the next lookup in the namespace asks the view, and answers what the view
    -- does.
    pub bump_version-invalidates :
        (n e scope : ℕ) (view : R) (c : Cache R)
        → Reachable c
        → (cached_response R status_code digest n e scope view (bump_version R n c)).0
          ≡ record { response = view; is_hit = false }
    unfolding cached_response
    bump_version-invalidates n e scope view c reach =
        let (k, is, free) =
          bump_version-unused n e (digest scope) c (Reachable-IsVersioned c reach) in
        rw (get_version-present n k (bump_version R n c) is, free) refl
