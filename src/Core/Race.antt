-- ===== src/Core/Race.antt =====
-- The counter of a namespace when its first two uses overlap: `get_version` finds no counter and is
-- about to write the first version, while `bump_version` of another request writes 2.
use inventra.Prelude.{ℕ, suc, ◌≡◌, refl, inl, inr, true, false, none, some, ==_refl, Option-cases}
use inventra.Core.Cache.{
  Cache, set_version, find_version, resume_version, bump_version, store, is_success,
  cached_response,
}
use inventra.Core.Invalidation.{Reachable, Reachable-IsVersioned, get_version-present}

module _ (R : Type 0) (status_code : R → ℕ) (digest : ℕ → ℕ) where
  bump_version-absent :
      (n : ℕ) (c : Cache R) → c.versions n ≡ none → bump_version R n c ≡ set_version R n 2 c
  unfolding bump_version
  bump_version-absent n c is = rw (bump_version, is) refl

  bump_version-present :
      (n k : ℕ) (c : Cache R)
      → c.versions n ≡ some k
      → bump_version R n c ≡ set_version R n (suc k) c
  unfolding bump_version
  bump_version-present n k c is = rw (bump_version, is) refl

  cached_response-miss :
      (n k e scope : ℕ) (view : R) (c : Cache R)
      → c.versions n ≡ some k
      → c.responses n k e (digest scope) ≡ none
      → is_success R status_code digest view ≡ true
      → cached_response R status_code digest n e scope view c
        ≡ (record { response = view; is_hit = false }, store R n k e (digest scope) view c)
  unfolding cached_response
  cached_response-miss n k e scope view c is free good =
      rw (get_version-present R n k c is, free, good) refl

  cached_response-hit :
      (n k e scope : ℕ) (view r : R) (c : Cache R)
      → c.versions n ≡ some k
      → c.responses n k e (digest scope) ≡ some r
      → cached_response R status_code digest n e scope view c
        ≡ (record { response = r; is_hit = true }, c)
  unfolding cached_response
  cached_response-hit n k e scope view r c is found =
      rw (get_version-present R n k c is, found) refl

  -- Let the first command of `get_version` find no counter, and let the rest of it run only after
  -- another request has bumped the namespace and a lookup has stored a successful response. Then the next bump does not invalidate
  -- that response: a lookup of the same scope after the bump is a hit, and answers the old response
  -- whatever the view answers now.
  pub get_version-races :
      (n e scope : ℕ) (old view : R) (c : Cache R)
      → Reachable R status_code digest c
      → c.versions n ≡ none
      → is_success R status_code digest old ≡ true
      → let (_, looked) = cached_response R status_code digest n e scope old (bump_version R n c) in
        let (_, late) = resume_version R n (find_version R n c) looked in
        (cached_response R status_code digest n e scope view (bump_version R n late)).0
        ≡ record { response = old; is_hit = true }
  get_version-races n e scope old view c reach absent good =
      let d = digest scope in
      let free : c.responses n 2 e d ≡ none = unused n e d c reach absent in
      let c1 = set_version R n 2 c in
      let first : c1.versions n ≡ some 2 = rw (==_refl n) refl in
      let c2 = store R n 2 e d old c1 in
      let c3 = set_version R n 1 c2 in
      let second : c3.versions n ≡ some 1 = rw (==_refl n) refl in
      let c4 = set_version R n 2 c3 in
      let third : c4.versions n ≡ some 2 = rw (==_refl n) refl in
      let kept : c4.responses n 2 e d ≡ some old = rw (==_refl n, ==_refl e, ==_refl d) refl in
      rw
        (
          absent,
          bump_version-absent n c absent,
          cached_response-miss n 2 e scope old c1 first free good,
          bump_version-present n 1 c3 second,
          cached_response-hit n 2 e scope view old c4 third kept,
        )
        refl
    where
      unused :
          (n e d : ℕ) (c : Cache R)
          → Reachable R status_code digest c
          → c.versions n ≡ none
          → c.responses n 2 e d ≡ none
      unused n e d c reach absent = elim (Option-cases (c.responses n 2 e d)) [
        | inl free ↦ free
        | inr (r, found) ↦
            let (j, is, _) = Reachable-IsVersioned R status_code digest c reach n 2 e d r found in
            cc
      ]
