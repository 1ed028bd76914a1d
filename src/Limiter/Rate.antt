-- ===== src/Limiter/Rate.antt =====
-- How many requests apps/backend/src/common/rate-limiter.guard.ts lets pass in a time.
use identity_access_graph.Prelude.{
  ℕ, zero, suc, ◌+◌, ◌-◌, ◌*◌, ◌≤◌, String, ◌≡◌, ◌≢◌, sym, ap, subst, Bool, true, false, List, [],
  ◌∷◌, inl, inr, ◌==◌, string_eq, Bool-cases, if◌then◌else◌, arith,
}
use identity_access_graph.Limiter.Tokens.{available, gain, cost, take_token-cost}
use identity_access_graph.Limiter.Cleaning.{
  IsMap, get-set_self, get-set_ne, set_bucket-IsMap, clean_up-IsMap, available-clean_up,
}
use identity_access_graph.Limiter.Bucket.{
  Limits, Buckets, get_bucket, set_bucket, bucket_or_new, take_token, can_activate, clean_up,
}

pub data Event : Type 0 where
  requests : String → Event
  cleans : Event

-- The time of the last event, or `t`.
abbrev pub end_time : ℕ → List (Event × ℕ) → ℕ
end_time t [] = t
end_time t ((ev, now) ∷ evs) = end_time now evs

-- The clock does not go back.
abbrev pub IsOrdered : ℕ → List (Event × ℕ) → Type 0
IsOrdered t [] = Unit
IsOrdered t ((ev, now) ∷ evs) = (t ≤ now) × IsOrdered now evs

le-end_time : (t : ℕ) (evs : List (Event × ℕ)) → IsOrdered t evs → t ≤ end_time t evs
le-end_time t [] o = omega arith
le-end_time t ((ev, now) ∷ evs) (l, o) = omega (arith, l, le-end_time now evs o)

together : (y z x m : ℕ) → y + z ≤ x → y * m + z * m ≤ x * m
together y z x zero h = omega arith
together y z x (suc m) h = omega (arith, together y z x m h, h)

sum_mul : (a b m : ℕ) → (a + b) * m ≡ a * m + b * m
sum_mul a b zero = omega arith
sum_mul a b (suc m) = omega (arith, sum_mul a b m)

module _ (c : Limits) (key : String) where
  unfoldable pub react : Event → ℕ → Buckets → Bool × Buckets
  react (requests k) now bs = can_activate c k now bs
  react cleans now bs = (false, clean_up c now bs)

  -- A request of `key` that passes.
  abbrev pub counts : Event → Bool → ℕ
  counts (requests k) passed = if k == key then (if passed then 1 else 0) else 0
  counts cleans passed = 0

  abbrev pub passed_requests : List (Event × ℕ) → Buckets → ℕ
  passed_requests [] bs = 0
  passed_requests ((ev, now) ∷ evs) bs =
      let (passed, bs') = react ev now bs in counts ev passed + passed_requests evs bs'

  abbrev held : ℕ → Buckets → ℕ
  held now bs = available c now (get_bucket key bs)

  react-IsMap : (ev : Event) (now : ℕ) (bs : Buckets) → IsMap bs → IsMap (react ev now bs).1
  unfolding react can_activate
  react-IsMap (requests k) now bs m = set_bucket-IsMap k _ bs m
  react-IsMap cleans now bs m = clean_up-IsMap c now bs m

  cost_one : (passed : Bool) → (if passed then 1 else 0) * c.refill_ms ≡ cost c passed
  cost_one true = omega arith
  cost_one false = omega arith

  own-held :
      (now : ℕ) (bs : Buckets)
      → let (passed, b) = take_token c now (bucket_or_new c now (get_bucket key bs)) in
        (if passed then 1 else 0) * c.refill_ms + held now (set_bucket key b bs) ≤ held now bs
  own-held now bs =
      let found = bucket_or_new c now (get_bucket key bs) in
      let (passed, b) = take_token c now found in
      omega (
        arith,
        cost_one passed,
        take_token-cost c now found,
        ap (available c now) (get-set_self key b bs),
      )

  request-held :
      (k : String) (now : ℕ) (bs : Buckets)
      → counts (requests k) (can_activate c k now bs).0 * c.refill_ms
          + held now (can_activate c k now bs).1
        ≤ held now bs
  unfolding can_activate
  request-held k now bs = elim (Bool-cases (k == key)) [
    | inl e ↦
        let i = (string_eq.test_iff k key).0 e in
        rw e (
          subst
            (λ x.
              (if (take_token c now (bucket_or_new c now (get_bucket x bs))).0 then 1 else 0)
                  * c.refill_ms
                + held now
                    (set_bucket x (take_token c now (bucket_or_new c now (get_bucket x bs))).1 bs)
              ≤ held now bs)
            (sym i) (own-held now bs))
    | inr e ↦
        let b = (take_token c now (bucket_or_new c now (get_bucket k bs))).1 in
        let n : k ≢ key = λ i. cc (e, (string_eq.test_iff k key).1 i) in
        rw e (omega (arith, ap (available c now) (get-set_ne k key b bs n)))
  ]

  react-held :
      (ev : Event) (now : ℕ) (bs : Buckets)
      → IsMap bs
      → counts ev (react ev now bs).0 * c.refill_ms + held now (react ev now bs).1 ≤ held now bs
  unfolding react
  react-held (requests k) now bs m = request-held k now bs
  react-held cleans now bs m = omega (arith, available-clean_up c now now key bs m (omega arith))

  passed-held :
      (evs : List (Event × ℕ)) (t : ℕ) (bs : Buckets)
      → IsMap bs
      → IsOrdered t evs
      → passed_requests evs bs * c.refill_ms ≤ held t bs + (end_time t evs - t) * c.max_tokens
  passed-held [] t bs m o = omega arith
  passed-held ((ev, now) ∷ evs) t bs m (l, o) =
      let r = react ev now bs in
      omega (
        arith,
        passed-held evs now r.1 (react-IsMap ev now bs m) o,
        react-held ev now bs m,
        gain c t now (get_bucket key bs) l,
        together (now - t) (end_time now evs - now) (end_time now evs - t) c.max_tokens
            (omega (arith, le-end_time now evs o, l)),
        sum_mul (counts ev r.0) (passed_requests evs r.1) c.refill_ms,
      )

  -- Whatever is requested by whom, and however often the buckets are cleaned up, from a map with
  -- one bucket per key and on a clock that does not go back: the requests of a key that pass are,
  -- in parts of tokens, at most those of a full bucket and those refilled from the first time to
  -- the last.
  pub passed_requests-bound :
      (evs : List (Event × ℕ)) (t : ℕ) (bs : Buckets)
      → IsMap bs
      → IsOrdered t evs
      → passed_requests evs bs * c.refill_ms
        ≤ c.max_tokens * c.refill_ms + (end_time t evs - t) * c.max_tokens
  passed_requests-bound evs t bs m o = omega (arith, passed-held evs t bs m o)
