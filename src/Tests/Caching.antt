-- ===== src/Tests/Caching.antt =====
-- The theorems on the cache where a response is its status code.
use inventra.Prelude.{ℕ, true, false, ◌≡◌, refl, none}
use inventra.Core.Cache.{
  Cache, find_version, resume_version, get_version, bump_version, cached_response,
}
use inventra.Core.Invalidation.{start, looked_up, bumped, bump_version-invalidates}
use inventra.Core.Race.{get_version-races}

abbrev empty_cache : Cache ℕ
empty_cache = record { versions = λ n. none; responses = λ n v e d. none }

abbrev digest : ℕ → ℕ
digest scope = scope

abbrev status_code : ℕ → ℕ
status_code r = r

-- one response is cached, its version bumped, and another one cached
abbrev used_cache : Cache ℕ
used_cache =
    (cached_response ℕ status_code digest 7 3 4 200
      (bump_version ℕ 7 ((cached_response ℕ status_code digest 7 3 4 201 empty_cache).1))).1

bump_version-invalidates_example :
    (cached_response ℕ status_code digest 7 3 4 202 (bump_version ℕ 7 used_cache)).0
    ≡ record { response = 202; is_hit = false }
bump_version-invalidates_example =
    bump_version-invalidates ℕ status_code digest 7 3 4 202 used_cache (
      looked_up 7 3 4 200
        (bump_version ℕ 7 ((cached_response ℕ status_code digest 7 3 4 201 empty_cache).1))
        (bumped 7 ((cached_response ℕ status_code digest 7 3 4 201 empty_cache).1)
          (looked_up 7 3 4 201 empty_cache start)))

get_version-races_example :
    let (_, looked) =
      cached_response ℕ status_code digest 7 3 4 200 (bump_version ℕ 7 empty_cache) in
    let (_, late) = resume_version ℕ 7 (find_version ℕ 7 empty_cache) looked in
    (cached_response ℕ status_code digest 7 3 4 202 (bump_version ℕ 7 late)).0
    ≡ record { response = 200; is_hit = true }
get_version-races_example =
    get_version-races ℕ status_code digest 7 3 4 200 202 empty_cache start refl refl

-- a second lookup of the same scope is a hit
second_lookup :
    (cached_response ℕ status_code digest 7 3 4 202 used_cache).0
    ≡ record { response = 200; is_hit = true }
unfolding cached_response get_version bump_version
second_lookup = refl
