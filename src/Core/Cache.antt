-- ===== src/Core/Cache.antt =====
-- apps/core/cache.py. The cache holds version counters and responses. It is a function of the keys
-- here, since the code asks for single keys only; the operations of Django's cache that the code
-- calls (`get`, `set`, `incr`) are those of a function. Which user, role and parameters a request
-- has is one number, `scope`: the code takes a digest of it, which is a parameter. The responses
-- that a view computes are of any type.
use inventra.Prelude.{
  ℕ, suc, Bool, true, false, ◌&&◌, Option, none, some, ◌==◌, leb, ltb, if◌then◌else◌,
}

module _ (R : Type 0) where
  -- what is stored under `f"{namespace}:v{version}:{endpoint}:{digest}"`, by those four parts
  pub record Cache : Type 0 where
    pub versions : ℕ → Option ℕ
    pub responses : ℕ → ℕ → ℕ → ℕ → Option R

  -- a response with its `X-Cache` header
  pub record Answer : Type 0 where
    pub response : R
    pub is_hit : Bool

  -- `cache.set(VERSION_KEY_TEMPLATE.format(namespace=namespace), version, timeout=None)`
  abbrev pub set_version : ℕ → ℕ → Cache → Cache
  set_version namespace version c = record c {
    versions = λ n. if n == namespace then some version else c.versions n;
  }

  -- the first command of `get_version`, `cache.get(key)`
  abbrev pub find_version : ℕ → Cache → Option ℕ
  find_version namespace c = c.versions namespace

  -- the rest of `get_version`, from what the first command answered. The commands of other requests
  -- may come between the two.
  abbrev pub resume_version : ℕ → Option ℕ → Cache → ℕ × Cache
  resume_version namespace none c = (1, set_version namespace 1 c)
  resume_version namespace (some version) c = (version, c)

  -- both parts, with nothing between them
  unfoldable pub get_version : ℕ → Cache → ℕ × Cache
  get_version namespace c = resume_version namespace (find_version namespace c) c

  -- `cache.incr` raises `ValueError` on a missing key
  unfoldable pub bump_version : ℕ → Cache → Cache
  bump_version namespace c = elim (c.versions namespace) [
    | none ↦ set_version namespace 2 c
    | some version ↦ set_version namespace (suc version) c
  ]

  -- `cache.set(key, ..., timeout=ttl)`
  abbrev pub store : ℕ → ℕ → ℕ → ℕ → R → Cache → Cache
  store namespace version endpoint digest r c = record c {
    responses = λ n v e d.
        if n == namespace && (v == version && (e == endpoint && d == digest))
        then some r
        else c.responses n v e d;
  }

  -- a key that expires, or is evicted
  abbrev pub expire : ℕ → ℕ → ℕ → ℕ → Cache → Cache
  expire namespace version endpoint digest c = record c {
    responses = λ n v e d.
        if n == namespace && (v == version && (e == endpoint && d == digest))
        then none
        else c.responses n v e d;
  }

  module _ (status_code : R → ℕ) (digest : ℕ → ℕ) where
    abbrev pub is_success : R → Bool
    is_success r = leb 200 (status_code r) && ltb (status_code r) 300

    -- what is done with `cache.get(key)`
    abbrev pub answer : ℕ → ℕ → ℕ → ℕ → R → Cache → Option R → Answer × Cache
    answer namespace version endpoint key view c (some cached) =
        (record { response = cached; is_hit = true }, c)
    answer namespace version endpoint key view c none = (
      record { response = view; is_hit = false },
      (if is_success view then store namespace version endpoint key view c else c),
    )

    -- `cached_response(namespace)` around a view's `get`; `view` is what the view answers now
    unfoldable pub cached_response : ℕ → ℕ → ℕ → R → Cache → Answer × Cache
    cached_response namespace endpoint scope view c =
        let (version, c') = get_version namespace c in
        answer namespace version endpoint (digest scope) view c'
          (c'.responses namespace version endpoint (digest scope))
