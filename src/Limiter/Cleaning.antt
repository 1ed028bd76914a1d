-- ===== src/Limiter/Cleaning.antt =====
-- The clean-up of apps/backend/src/common/rate-limiter.guard.ts, and its map of buckets.
use identity_access_graph.Prelude.{
  ℕ, ◌-◌, ◌*◌, ◌≤◌, ◌<◌, String, ◌≡◌, ◌≢◌, refl, sym, ap, subst, true, false, [], ◌∷◌, Option, none,
  some, inl, inr, ◌==◌, ==_refl, ==_ne, string_eq, Bool-cases, if◌then◌else◌, ltb, ltb→lt, arith,
  ◌∙◌,
}
use identity_access_graph.Limiter.Bucket.{
  Limits, Bucket, Buckets, get_bucket, set_bucket, capacity, bucket_or_new, refilled, take_token,
  can_activate, clean_up,
}
use identity_access_graph.Limiter.Tokens.{available, elapsed_mul}

pub get-set_self :
    (key : String) (b : Bucket) (bs : Buckets) → get_bucket key (set_bucket key b bs) ≡ some b
get-set_self key b [] = rw (==_refl key) refl
get-set_self key b ((k, d) ∷ bs) = elim (Bool-cases (k == key)) [
  | inl e ↦ rw (e, e) refl
  | inr e ↦ rw (e, e) (get-set_self key b bs)
]

pub get-set_ne :
    (key other : String) (b : Bucket) (bs : Buckets)
    → key ≢ other
    → get_bucket other (set_bucket key b bs) ≡ get_bucket other bs
get-set_ne key other b [] h = rw (==_ne key other h) refl
get-set_ne key other b ((k, d) ∷ bs) h = elim (Bool-cases (k == key)) [
  | inl e ↦ rw (e, ==_ne k other (λ i. h (sym ((string_eq.test_iff k key).0 e) ∙ i))) refl
  | inr e ↦ ground (arith, e, get-set_ne key other b bs h)
]

-- A key has one bucket.
abbrev pub IsMap : Buckets → Type 0
IsMap [] = Unit
IsMap ((k, b) ∷ bs) = (get_bucket k bs ≡ none) × IsMap bs

pub set_bucket-IsMap :
    (key : String) (b : Bucket) (bs : Buckets) → IsMap bs → IsMap (set_bucket key b bs)
set_bucket-IsMap key b [] m = (refl, tt)
set_bucket-IsMap key b ((k, d) ∷ bs) (n, m) = elim (Bool-cases (k == key)) [
  | inl e ↦ rw e (n, m)
  | inr e ↦ rw e (
    get-set_ne key k b bs (λ i. cc (e, (string_eq.test_iff k key).1 (sym i))) ∙ n,
    set_bucket-IsMap key b bs m,
  )
]

module _ (c : Limits) where
  get-clean_up-none :
      (now : ℕ) (key : String) (bs : Buckets)
      → get_bucket key bs ≡ none
      → get_bucket key (clean_up c now bs) ≡ none
  unfolding clean_up
  get-clean_up-none now key [] n = refl
  get-clean_up-none now key ((k, b) ∷ bs) n = ground (arith, n, get-clean_up-none now key bs)

  pub clean_up-IsMap : (now : ℕ) (bs : Buckets) → IsMap bs → IsMap (clean_up c now bs)
  unfolding clean_up
  clean_up-IsMap now [] m = tt
  clean_up-IsMap now ((k, b) ∷ bs) (n, m) =
      elim (Bool-cases (ltb (c.refill_ms * 2) (now - b.last))) [
        | inl e ↦ rw e (clean_up-IsMap now bs m)
        | inr e ↦ rw e (get-clean_up-none now k bs n, clean_up-IsMap now bs m)
      ]

  -- What was not used for two windows is full.
  full :
      (now t : ℕ) (b : Bucket)
      → c.refill_ms * 2 < now - b.last
      → now ≤ t
      → refilled c t b ≡ capacity c
  full now t b h l =
      omega (arith, elapsed_mul c.refill_ms (t - b.last) 0 c.max_tokens (omega (arith, h, l)))

  full_new : (now t : ℕ) → refilled c t (record { tokens = capacity c; last = t }) ≡ capacity c
  full_new now t = omega arith

  available_new : (t : ℕ) → available c t none ≡ capacity c
  available_new t = omega arith

  forgotten :
      (now t : ℕ) (key k : String) (b : Bucket) (bs : Buckets)
      → get_bucket k bs ≡ none
      → now ≤ t
      → ltb (c.refill_ms * 2) (now - b.last) ≡ true
      → available c t (get_bucket key (clean_up c now bs)) ≡ available c t (get_bucket key bs)
      → available c t (get_bucket key (clean_up c now bs))
        ≡ available c t (get_bucket key ((k, b) ∷ bs))
  forgotten now t key k b bs n l e h = elim (Bool-cases (k == key)) [
    | inl i ↦
        let j = (string_eq.test_iff k key).0 i in
        let g = get-clean_up-none now key bs (subst (λ x. get_bucket x bs ≡ none) j n) in
        rw i (
          ap (available c t) g
          ∙ available_new t
          ∙ sym (full now t b (ltb→lt (c.refill_ms * 2) (now - b.last) e) l))
    | inr i ↦ rw i h
  ]

  kept :
      (now t : ℕ) (key k : String) (b : Bucket) (bs : Buckets)
      → available c t (get_bucket key (clean_up c now bs)) ≡ available c t (get_bucket key bs)
      → available c t (get_bucket key ((k, b) ∷ clean_up c now bs))
        ≡ available c t (get_bucket key ((k, b) ∷ bs))
  kept now t key k b bs h = elim (Bool-cases (k == key)) [ inl i ↦ rw i refl | inr i ↦ rw i h ]

  -- The same tokens are found, at the time of the clean-up and later.
  pub available-clean_up :
      (now t : ℕ) (key : String) (bs : Buckets)
      → IsMap bs
      → now ≤ t
      → available c t (get_bucket key (clean_up c now bs)) ≡ available c t (get_bucket key bs)
  unfolding clean_up
  available-clean_up now t key [] m l = refl
  available-clean_up now t key ((k, b) ∷ bs) (n, m) l =
      elim (Bool-cases (ltb (c.refill_ms * 2) (now - b.last))) [
        | inl e ↦ rw e (forgotten now t key k b bs n l e (available-clean_up now t key bs m l))
        | inr e ↦ rw e (kept now t key k b bs (available-clean_up now t key bs m l))
      ]

  -- The verdict on a request and the bucket it leaves depend on the tokens found.
  take_token-available :
      (t : ℕ) (o p : Option Bucket)
      → available c t o ≡ available c t p
      → take_token c t (bucket_or_new c t o) ≡ take_token c t (bucket_or_new c t p)
  take_token-available t o p h =
      ap
        (λ (n : ℕ).
          if ltb n c.refill_ms
          then (false, record { tokens = n; last = t })
          else (true, record { tokens = n - c.refill_ms; last = t }))
        h

  -- The clean-up changes no verdict, in a map with one bucket per key: after it as without it, a
  -- request of any key, at its time or later, passes or is refused alike, and leaves the same
  -- bucket.
  pub clean_up-can_activate :
      (now t : ℕ) (key : String) (bs : Buckets)
      → IsMap bs
      → now ≤ t
      → ((can_activate c key t (clean_up c now bs)).0 ≡ (can_activate c key t bs).0)
        × (get_bucket key (can_activate c key t (clean_up c now bs)).1
            ≡ get_bucket key (can_activate c key t bs).1)
  unfolding can_activate
  clean_up-can_activate now t key bs m l =
      let same =
        take_token-available t (get_bucket key (clean_up c now bs)) (get_bucket key bs)
          (available-clean_up now t key bs m l) in
      (
        ap (λ r. r.0) same,
        get-set_self key _ (clean_up c now bs)
            ∙ ap (λ r. some r.1) same
            ∙ sym (get-set_self key _ bs),
      )
