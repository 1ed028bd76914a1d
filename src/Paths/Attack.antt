-- ===== src/Paths/Attack.antt =====
-- `attackPath` of apps/frontend/src/services/graphInvestigation.ts, and the cache behind it.
use identity_access_graph.Prelude.{
  ℕ, ◌≤◌, String, Bool, List, [], ◌∷◌, ◌++◌, Option, none, some, ◌≡◌, ◌≢◌, refl, length,
  length-append, inl, inr, arith, subst, ◌==◌, ==_refl, ==_ne, string_eq, if◌then◌else◌, Bool-cases,
  ◌||◌,
}
use identity_access_graph.Linux.Graph.{GraphData, GraphLink}
use identity_access_graph.Paths.Search.{
  PathDirection, directed, PathResult, PathCache, cached_path, path_key, shortest_path, path_or_new,
}
use identity_access_graph.Paths.Walks.{Trail, begin, extend}
use identity_access_graph.Paths.Shortest.{IsShortest, new_path-IsShortest}
use identity_access_graph.Paths.Blast.{AttackPathResult, attack_path, attack_of, is_privilege}

cached_path-added :
    (cache : PathCache) (key : String) (r : Option PathResult)
    → cached_path cache key ≡ none
    → cached_path (cache ++ (key, r) ∷ []) key ≡ some r
cached_path-added [] key r e = rw (==_refl key) refl
cached_path-added ((k, q) ∷ krs) key r e = elim (Bool-cases (k == key)) [
  | inl d ↦
      let p : some q ≡ none = subst (λ b. (if b then some q else cached_path krs key) ≡ none) d e in
      cc p
  | inr d ↦
      let p : cached_path krs key ≡ none =
        subst (λ b. (if b then some q else cached_path krs key) ≡ none) d e in
      rw d (cached_path-added krs key r p)
]

module _ (g : GraphData) (source target : String) (direction : PathDirection) (max_depth : ℕ)
    (allowed : Option (GraphLink → Bool)) (cache : PathCache) where
  abbrev key : String
  key = path_key g source target direction max_depth allowed

  abbrev run : PathCache → Option PathResult × PathCache
  run = shortest_path g source target direction max_depth allowed

  -- A second call gives the result of the first, and leaves the cache as the first left it.
  pub shortest_path-again : run (run cache).1 ≡ run cache
  unfolding shortest_path
  shortest_path-again = go (cached_path cache key) refl
    where
      go :
          (o : Option (Option PathResult))
          → cached_path cache key ≡ o
          → path_or_new g source target direction max_depth allowed
              (path_or_new g source target direction max_depth allowed cache o).1
              (cached_path (path_or_new g source target direction max_depth allowed cache o).1 key)
            ≡ path_or_new g source target direction max_depth allowed cache o
      go (some r) e = rw e refl
      go none e = elim (Bool-cases ((source == "") || (target == ""))) [
        | inl d ↦ rw (d, e, d) refl
        | inr d ↦ rw (d, cached_path-added cache key _ e) refl
      ]

module _ (g : GraphData) (source target : String) where
  -- What is found is a shortest path of privilege links, with a score from 35 to 100, which is at
  -- least 43 between different nodes; nothing is found only if no walk of ten such links or fewer
  -- leads to the target.
  abbrev pub IsAttack : Option AttackPathResult → Type 0
  IsAttack none = IsShortest g source target directed 10 is_privilege none
  IsAttack (some a) =
      IsShortest g source target directed 10 is_privilege (some a.path)
      × (35 ≤ a.risk_score)
      × (a.risk_score ≤ 100)
      × (source ≢ target → 43 ≤ a.risk_score)

  Trail-links :
      {nodes links : List String} {b : String}
      → Trail directed is_privilege g.links source nodes links b
      → source ≢ b
      → 1 ≤ length links
  Trail-links begin ne = absurd (ne refl)
  Trail-links (extend {is = is} {l = l} t e) ne = omega (arith, length-append is (l.id ∷ []))

  attack_of-IsAttack :
      (o : Option PathResult)
      → IsShortest g source target directed 10 is_privilege o
      → IsAttack (attack_of g source target o)
  attack_of-IsAttack none h = h
  attack_of-IsAttack (some r) h =
      (h, omega arith, omega arith, λ ne. omega (arith, Trail-links h.0 ne))

  -- Where the cache has no result for it and no end is the empty text, `attackPath` gives a shortest
  -- path over privilege links, with a score from 35 to 100 that is at least 43 between different
  -- nodes; it gives none only if no walk of at most ten such links leads from the source to the target.
  pub attack_path-IsAttack :
      (cache : PathCache)
      → cached_path cache (path_key g source target directed 10 (some is_privilege)) ≡ none
      → source ≢ ""
      → target ≢ ""
      → IsAttack (attack_path g source target cache).0
  unfolding attack_path shortest_path
  attack_path-IsAttack cache missing s t = rw missing (
      rw (==_ne source "" s, ==_ne target "" t)
        (attack_of-IsAttack _ (new_path-IsShortest g source target directed 10 is_privilege)))
