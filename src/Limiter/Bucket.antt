-- ===== src/Limiter/Bucket.antt =====
-- apps/backend/src/common/rate-limiter.guard.ts: `RateLimiterGuard`.
--
-- A bucket's `tokens` are counted in parts, `refill_ms` of them to a token, so that what is refilled
-- in a millisecond is `max_tokens` parts: the source's fractions without their rounding. Clock
-- readings do not go back. The key of a request (its address, a header, or `unknown`) is an
-- argument; a request that is refused throws `Too many requests`.
use identity_access_graph.Prelude.{
  ℕ, ◌+◌, ◌-◌, ◌*◌, min, String, Bool, true, false, List, [], ◌∷◌, Option, none, some, ◌==◌,
  string_eq, if◌then◌else◌, ltb,
}

pub record Limits : Type 0 where
  pub max_tokens : ℕ
  pub refill_ms : ℕ

pub record Bucket : Type 0 where
  pub tokens : ℕ
  pub last : ℕ

-- The map of buckets, in the order in which their keys were first set.
abbrev pub Buckets : Type 0
Buckets = List (String × Bucket)

abbrev pub get_bucket : String → Buckets → Option Bucket
get_bucket key [] = none
get_bucket key ((k, b) ∷ bs) = let rest = get_bucket key bs in if k == key then some b else rest

abbrev pub set_bucket : String → Bucket → Buckets → Buckets
set_bucket key b [] = (key, b) ∷ []
set_bucket key b ((k, d) ∷ bs) =
    let rest = set_bucket key b bs in if k == key then (k, b) ∷ bs else (k, d) ∷ rest

module _ (c : Limits) where
  abbrev pub capacity : ℕ
  capacity = c.max_tokens * c.refill_ms

  abbrev pub bucket_or_new : ℕ → Option Bucket → Bucket
  bucket_or_new now none = record { tokens = capacity; last = now }
  bucket_or_new now (some b) = b

  abbrev pub refilled : ℕ → Bucket → ℕ
  refilled now b = min capacity (b.tokens + (now - b.last) * c.max_tokens)

  -- A request that finds this bucket: whether it passes, and what becomes of the bucket.
  abbrev pub take_token : ℕ → Bucket → Bool × Bucket
  take_token now b =
      let tokens = refilled now b in
      if ltb tokens c.refill_ms
      then (false, record { tokens = tokens; last = now })
      else (true, record { tokens = tokens - c.refill_ms; last = now })

  unfoldable pub can_activate : String → ℕ → Buckets → Bool × Buckets
  can_activate key now bs =
      let (passed, b) = take_token now (bucket_or_new now (get_bucket key bs)) in
      (passed, set_bucket key b bs)

  -- The timer's callback, which forgets buckets that were not used for two windows.
  unfoldable pub clean_up : ℕ → Buckets → Buckets
  clean_up now [] = []
  clean_up now ((k, b) ∷ bs) =
      let rest = clean_up now bs in
      if ltb (c.refill_ms * 2) (now - b.last) then rest else (k, b) ∷ rest
