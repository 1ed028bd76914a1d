-- ===== src/Paths/Shortest.antt =====
-- What `shortestPath` (apps/frontend/src/services/graphInvestigation.ts) finds when the cache has no
-- result.
use identity_access_graph.Prelude.{
  ℕ, ◌≤◌, String, Bool, [], ◌∷◌, Option, none, some, ◌≡◌, ◌≢◌, refl, length, subst,
}
use identity_access_graph.Linux.Graph.{GraphData, GraphLink}
use identity_access_graph.Paths.Search.{
  PathDirection, PathResult, SearchOutcome, found, exhausted, out_of_fuel, start_at, enough,
  depth_bound, result_of, new_path,
}
use identity_access_graph.Paths.Walks.{Walk, Trail}
use identity_access_graph.Paths.Found.{IsRight, search-IsRight, start-IsSearched}
use identity_access_graph.Paths.Ends.{start-ends}

module _ (g : GraphData) (source target : String) (direction : PathDirection) (max_depth : ℕ)
    (allowed : GraphLink → Bool) where
  -- A path to the target with as many links as it says and as the bound allows, and no walk has
  -- fewer; or none, and no walk is within the bound.
  abbrev pub IsShortest : Option PathResult → Type 0
  IsShortest none =
      (k : ℕ) → Walk direction allowed g.links source target k → ¬ (k ≤ depth_bound max_depth)
  IsShortest (some r) =
      Trail direction allowed g.links source r.node_ids r.link_ids target
      × (r.depth ≡ length r.link_ids)
      × (r.depth ≤ depth_bound max_depth)
      × ((k : ℕ)
          → Walk direction allowed g.links source target k
          → k ≤ depth_bound max_depth
          → r.depth ≤ k)

  outcome-IsShortest :
      (o : SearchOutcome)
      → IsRight direction allowed g.links source target (depth_bound max_depth) o
      → o ≢ out_of_fuel
      → IsShortest (result_of o)
  unfolding IsRight
  outcome-IsShortest (found v) h ne =
      (subst (Trail direction allowed g.links source v.nodes v.links) h.1 h.0, refl, h.2, h.3)
  outcome-IsShortest exhausted h ne = h
  outcome-IsShortest out_of_fuel h ne = absurd (ne refl)

  -- The search ends. It finds a path over links that may be used, from the source to the target, with
  -- the fewest links; it finds none only if no walk of such links is within the bound, which is the
  -- given depth, at least 1 and at most 10.
  pub new_path-IsShortest : IsShortest (new_path g source target direction max_depth allowed)
  unfolding new_path
  new_path-IsShortest =
      outcome-IsShortest _
        (search-IsRight direction allowed g.links source target (depth_bound max_depth)
          (enough g.links) [] (start_at source ∷ []) (source ∷ []) 0
          (start-IsSearched direction allowed g.links source target (depth_bound max_depth)))
        (start-ends direction allowed g.links target (depth_bound max_depth) source)
