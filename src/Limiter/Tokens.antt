-- ===== src/Limiter/Tokens.antt =====
-- The tokens of a bucket of apps/backend/src/common/rate-limiter.guard.ts over time.
use identity_access_graph.Prelude.{
  ℕ, zero, suc, ◌+◌, ◌-◌, ◌*◌, ◌≤◌, min, ◌≡◌, Bool, false, Option, none, some, inl, inr, string_eq,
  Bool-cases, if◌then◌else◌, ltb, arith,
}
use identity_access_graph.Limiter.Bucket.{
  Limits, Bucket, capacity, bucket_or_new, refilled, take_token,
}

pub elapsed_mul : (x y z m : ℕ) → x ≤ y + z → x * m ≤ y * m + z * m
elapsed_mul x y z zero h = omega arith
elapsed_mul x y z (suc m) h = omega (arith, elapsed_mul x y z m h, h)

no_time : (now m : ℕ) → (now - now) * m ≡ 0
no_time now zero = omega arith
no_time now (suc m) = omega (arith, no_time now m)

gain_new : (cap p q r : ℕ) → min cap (cap + p) ≤ min cap (cap + q) + r
gain_new cap p q r = omega arith

gain_old : (cap b p q r : ℕ) → p ≤ q + r → min cap (b + p) ≤ min cap (b + q) + r
gain_old cap b p q r h = omega (arith, h)

module _ (c : Limits) where
  -- What a request of this key would find at `now`.
  abbrev pub available : ℕ → Option Bucket → ℕ
  available now o = refilled c now (bucket_or_new c now o)

  pub gain :
      (t now : ℕ) (o : Option Bucket)
      → t ≤ now
      → available now o ≤ available t o + (now - t) * c.max_tokens
  gain t now none h = gain_new _ _ _ _
  gain t now (some b) h =
      gain_old (capacity c) b.tokens _ _ _
        (elapsed_mul (now - b.last) (t - b.last) (now - t) c.max_tokens (omega arith))

  -- The tokens of a request that finds `n`, and what is left.
  abbrev pub cost : Bool → ℕ
  cost passed = if passed then c.refill_ms else 0

  refilled_now :
      (now n : ℕ) → n ≤ capacity c → refilled c now (record { tokens = n; last = now }) ≡ n
  refilled_now now n h = omega (arith, no_time now c.max_tokens, h)

  least : (n : ℕ) → ltb n c.refill_ms ≡ false → c.refill_ms ≤ n
  least n e = ground (arith, e)

  pub take_token-cost :
      (now : ℕ) (b : Bucket)
      → cost (take_token c now b).0 + refilled c now (take_token c now b).1 ≤ refilled c now b
  take_token-cost now b = elim (Bool-cases (ltb (refilled c now b) c.refill_ms)) [
    | inl e ↦ rw e (omega (arith, refilled_now now (refilled c now b) (omega arith)))
    | inr e ↦ rw e (
        omega (
          arith,
          refilled_now now (refilled c now b - c.refill_ms) (omega arith),
          least (refilled c now b) e,
        ))
  ]
