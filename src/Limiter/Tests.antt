-- ===== src/Limiter/Tests.antt =====
-- The theorems on the rate limiter at a concrete sequence of requests.
use identity_access_graph.Prelude.{ℕ, ◌*◌, ◌≤◌, ◌≡◌, refl, List, [], ◌∷◌, arith}
use identity_access_graph.Limiter.Bucket.{Limits, Buckets, get_bucket, can_activate, clean_up}
use identity_access_graph.Limiter.Cleaning.{clean_up-can_activate}
use identity_access_graph.Limiter.Rate.{
  Event, requests, cleans, react, passed_requests, passed_requests-bound,
}

abbrev settings : Limits
settings = record { max_tokens = 2; refill_ms = 10 }

-- The third request is refused, the fourth passes on what was refilled.
abbrev morning : List (Event × ℕ)
morning =
    (requests "10.0.0.1", 100)
    ∷ (requests "10.0.0.1", 100)
    ∷ (requests "10.0.0.1", 101)
    ∷ (requests "10.0.0.2", 101)
    ∷ (requests "10.0.0.1", 106)
    ∷ (cleans, 200)
    ∷ []

three_pass : passed_requests settings "10.0.0.1" morning [] ≡ 3
unfolding react can_activate clean_up
three_pass = refl

passed_requests-bound_example : passed_requests settings "10.0.0.1" morning [] * 10 ≤ 220
passed_requests-bound_example =
    passed_requests-bound settings "10.0.0.1" morning 100 [] tt
      (omega arith, (omega arith, (omega arith, (omega arith, (omega arith, (omega arith, tt))))))

abbrev used : Buckets
used = ("10.0.0.1", record { tokens = 3; last = 100 }) ∷ []

clean_up-can_activate_example :
    ((can_activate settings "10.0.0.1" 150 (clean_up settings 130 used)).0
      ≡ (can_activate settings "10.0.0.1" 150 used).0)
    × (get_bucket "10.0.0.1" (can_activate settings "10.0.0.1" 150 (clean_up settings 130 used)).1
        ≡ get_bucket "10.0.0.1" (can_activate settings "10.0.0.1" 150 used).1)
clean_up-can_activate_example =
    clean_up-can_activate settings 130 150 "10.0.0.1" used (refl, tt) (omega arith)
