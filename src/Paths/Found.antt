-- ===== src/Paths/Found.antt =====
-- The `while` loop of `shortestPath` (apps/frontend/src/services/graphInvestigation.ts): what it
-- finds is a path with the fewest links, and what it does not find is not within the bound.
use mathlib.Core.List.{Memᴰ}
use identity_access_graph.Prelude.{
  ℕ, zero, suc, ◌≤◌, String, Bool, List, [], ◌∷◌, ◌≡◌, ◌≢◌, refl, inl, inr, arith, sym, subst, ◌∙◌,
  ◌==◌, string_eq, Bool-cases, ||_false,
}
use identity_access_graph.Linux.Graph.{GraphLink}
use identity_access_graph.Paths.Search.{
  PathDirection, Visit, depth_of, search, SearchOutcome, found, exhausted, out_of_fuel, start_at,
}
use identity_access_graph.Paths.Walks.{Walk, begin, IsTrail}
use identity_access_graph.Paths.Queues.{IsLevels}
use identity_access_graph.Paths.Searching.{IsSearched}
use identity_access_graph.Paths.Rounds.{next-IsSearched, found-least}

module _ (direction : PathDirection) (allowed : GraphLink → Bool) (ls : List GraphLink)
    (source target : String) (bound : ℕ) where
  -- What an outcome says of the walks within the bound.
  unfoldable pub IsRight : SearchOutcome → Type 0
  IsRight (found v) =
      IsTrail direction allowed ls source v
      × (v.node_id ≡ target)
      × (depth_of v ≤ bound)
      × ((k : ℕ) → Walk direction allowed ls source target k → k ≤ bound → depth_of v ≤ k)
  IsRight exhausted = (k : ℕ) → Walk direction allowed ls source target k → ¬ (k ≤ bound)
  IsRight out_of_fuel = Unit

  exhausted-IsRight :
      (done : List Visit) (visited : List String) (d : ℕ)
      → IsSearched direction allowed ls source target bound done [] visited d
      → (k : ℕ) → Walk direction allowed ls source target k
      → ¬ (k ≤ bound)
  exhausted-IsRight done visited d h k w b = elim (h.origin.1) [
    | inr mq ↦ elim mq [ ]
    | inl md ↦
        let zero_deep : depth_of h.origin.0 ≡ 0 = h.origin.3 in
        elim (h.reach h.origin.0 target k md
          (subst (λ i. Walk direction allowed ls i target k) (sym h.origin.2) w)
          (omega (arith, zero_deep, b))) [
            | inl (u, mu, eu) ↦ h.missed u mu eu
            | inr (e, j, me, we, le) ↦ elim me [ ]
          ]
  ]

  pub search-IsRight :
      (fuel : ℕ) (done vs : List Visit) (visited : List String) (d : ℕ)
      → IsSearched direction allowed ls source target bound done vs visited d
      → IsRight (search direction allowed ls target bound fuel vs visited)
  unfolding search IsRight
  search-IsRight fuel done [] visited d h = exhausted-IsRight done visited d h
  search-IsRight zero done (v ∷ vs) visited d h = tt
  search-IsRight (suc fuel) done (v ∷ vs) visited d h = elim (Bool-cases (v.node_id == target)) [
    | inl e ↦
        let at = (string_eq.test_iff v.node_id target).0 e in
        rw e (
          h.trails.0,
          at,
          h.shallow v (Memᴰ.head refl),
          found-least direction allowed ls source target bound done v vs visited d h at,
        )
    | inr e ↦
        let ne : v.node_id ≢ target =
          λ p. cc (sym ((string_eq.test_iff v.node_id target).1 p) ∙ e) in
        rw e (
          search-IsRight fuel (v ∷ done) _ _ (depth_of v)
            (next-IsSearched direction allowed ls source target bound done v vs visited d h ne))
  ]

  start_shallow : (w : Visit) → Memᴰ w (start_at source ∷ []) → depth_of w ≤ bound
  start_shallow w (Memᴰ.head p) = subst (λ (y : Visit). depth_of y ≤ bound) (sym p) (omega arith)
  start_shallow w (Memᴰ.tail m) = elim m [ ]

  pub start-IsSearched :
      IsSearched direction allowed ls source target bound [] (start_at source ∷ []) (source ∷ []) 0
  unfolding IsLevels
  start-IsSearched = record {
    trails = (begin, tt);
    levels = inl (refl, tt);
    shallow = λ w m. start_shallow w m;
    low = λ u m. elim m [ ];
    seen = λ i e. inr (
      start_at source,
      Memᴰ.head refl,
      (string_eq.test_iff source i).0 (sym (||_false (source == i)) ∙ e),
    );
    missed = λ u m. elim m [ ];
    reach = λ u n j m w b. elim m [ ];
    origin = (start_at source, inr (Memᴰ.head refl), refl, refl);
  }
