-- ===== src/Paths/Reached.antt =====
-- What `blastRadius` (apps/frontend/src/services/graphInvestigation.ts) visits, and what
-- `shortestPath` finds.
use mathlib.Core.List.{Memᴰ}
use identity_access_graph.Prelude.{
  ℕ, zero, suc, ◌+◌, ◌≤◌, String, Bool, true, false, List, [], ◌∷◌, some, ◌≡◌, ◌≢◌, refl, length,
  map, inl, inr, arith, sym, ap, subst, ◌∙◌, is_some, includes, ◌==◌, string_eq, Bool-cases,
  ||_false, ==_refl, ==_ne,
}
use identity_access_graph.Linux.Graph.{GraphData, GraphLink}
use identity_access_graph.Paths.Search.{
  directed, Visit, Frontier, expand, search, SearchOutcome, found, exhausted, out_of_fuel, start_at,
  enough, depth_bound, result_of, new_path,
}
use identity_access_graph.Paths.Blast.{
  BlastFrontier, blast_expand, blast_search, BlastRadiusResult, new_blast, blast_counts,
  blast_nodes,
}
use identity_access_graph.Paths.Scanned.{HasId, AllVisited}
use identity_access_graph.Paths.Searching.{expand-Scanned}
use identity_access_graph.Paths.Ends.{ends_of, unseen, expand-measure, unseen-le, length-ends_of}
use identity_access_graph.Paths.Lockstep.{any_link, view_of, Matches, AllNamed, expand-Matches}

abbrev is_found : SearchOutcome → Bool
is_found (found v) = true
is_found _ = false

module _ (ls : List GraphLink) (bound : ℕ) (named : AllNamed ls) where
  abbrev IsSame : List String → List String → Type 0
  IsSame bv visited = (i : String) → includes bv i ≡ includes visited i

  -- The loop ends on enough fuel, and what was visited stays visited.
  blast_search-ends :
      (target : String) (fuel : ℕ) (vs : List Visit) (visited bv : List String)
      → IsSame bv visited
      → length vs + unseen visited (ends_of ls) ≤ fuel
      → (ids : List String) × (blast_search ls bound fuel (map view_of vs) bv ≡ some ids)
        × ((i : String) → includes visited i ≡ true → includes ids i ≡ true)
  unfolding blast_search
  blast_search-ends target fuel [] visited bv h f = (bv, refl, λ i e. h i ∙ e)
  blast_search-ends target zero (v ∷ vs) visited bv h f = absurd (omega (arith, f))
  blast_search-ends target (suc fuel) (v ∷ vs) visited bv h f =
      let s : Frontier = record { queue = vs; visited = visited } in
      let b : BlastFrontier = record { queue = map view_of vs; visited = bv } in
      let t = expand directed any_link ls target bound v s in
      let c = blast_expand ls bound (view_of v) b in
      let m : Matches t c =
        expand-Matches ls target bound v s b named (record { waiting = refl; same = h }) in
      let less = expand-measure directed any_link ls target bound v s in
      let more =
        blast_search-ends target fuel t.queue t.visited c.visited m.same (omega (arith, f, less)) in
      (
        more.0,
        ap (λ q. blast_search ls bound fuel q c.visited) m.waiting ∙ more.1,
        λ i e. more.2 i ((expand-Scanned directed any_link ls "" target bound v s).keeps i e),
      )

  -- The next step of both loops keeps the target among what waits.
  next_waits :
      (target : String) (v : Visit) (vs : List Visit) (visited : List String)
      → v.node_id ≢ target
      → (includes visited target ≡ true → HasId (v ∷ vs) target)
      → let t =
          expand directed any_link ls target bound v (record { queue = vs; visited = visited }) in
        includes t.visited target ≡ true → HasId t.queue target
  next_waits target v vs visited ne h e =
      let scanned =
        expand-Scanned directed any_link ls "" target bound v
          (record { queue = vs; visited = visited }) in
      elim (scanned.seen target e) [
        | inr q ↦ q
        | inl old ↦
            let (x, mx, ex) = h old in
            elim mx [
              | Memᴰ.head p ↦ absurd (ne (ap (λ (y : Visit). y.node_id) (sym p) ∙ ex))
              | Memᴰ.tail my ↦ (x, scanned.stays x my, ex)
            ]
      ]

  -- A node is visited in the end exactly if the search for it finds it.
  blast_search-search :
      (target : String) (fuel : ℕ) (vs : List Visit) (visited bv ids : List String)
      → IsSame bv visited
      → length vs + unseen visited (ends_of ls) ≤ fuel
      → AllVisited visited vs
      → (includes visited target ≡ true → HasId vs target)
      → blast_search ls bound fuel (map view_of vs) bv ≡ some ids
      → includes ids target ≡ is_found (search directed any_link ls target bound fuel vs visited)
  unfolding blast_search search
  blast_search-search target fuel [] visited bv ids h f a w e =
      elim (Bool-cases (includes visited target)) [
        | inl d ↦ elim ((w d).1) [ ]
        | inr d ↦
            let p : bv ≡ ids = ground (arith, e) in
            subst (λ is. includes is target ≡ false) p (h target ∙ d)
      ]
  blast_search-search target zero (v ∷ vs) visited bv ids h f a w e = absurd (omega (arith, f))
  blast_search-search target (suc fuel) (v ∷ vs) visited bv ids h f a w e =
      let s : Frontier = record { queue = vs; visited = visited } in
      let b : BlastFrontier = record { queue = map view_of vs; visited = bv } in
      let t = expand directed any_link ls target bound v s in
      let c = blast_expand ls bound (view_of v) b in
      let m : Matches t c =
        expand-Matches ls target bound v s b named (record { waiting = refl; same = h }) in
      elim (Bool-cases (v.node_id == target)) [
        | inl d ↦
            let at : v.node_id ≡ target = (string_eq.test_iff v.node_id target).0 d in
            let now : includes visited target ≡ true =
              subst (λ i. includes visited i ≡ true) at a.0 in
            let ends = blast_search-ends target (suc fuel) (v ∷ vs) visited bv h f in
            let p : ends.0 ≡ ids = let q : some ends.0 ≡ some ids = sym ends.1 ∙ e in cc q in
            rw d (subst (λ is. includes is target ≡ true) p (ends.2 target now))
        | inr d ↦
            let ne : v.node_id ≢ target =
              λ p. cc (sym ((string_eq.test_iff v.node_id target).1 p) ∙ d) in
            let less = expand-measure directed any_link ls target bound v s in
            let scanned = expand-Scanned directed any_link ls "" target bound v s in
            rw d (
              blast_search-search target fuel t.queue t.visited c.visited ids m.same
                (omega (arith, f, less)) (scanned.held a.1) (next_waits target v vs visited ne w)
                (sym (ap (λ q. blast_search ls bound fuel q c.visited) m.waiting) ∙ e))
      ]

module _ (g : GraphData) (source : String) (max_depth : ℕ) where
  IsSome-outcome : (o : SearchOutcome) → is_found o ≡ is_some (result_of o)
  IsSome-outcome (found v) = refl
  IsSome-outcome exhausted = refl
  IsSome-outcome out_of_fuel = refl

  start_waits :
      (target : String) → includes (source ∷ []) target ≡ true → HasId (start_at source ∷ []) target
  start_waits target e = (
    start_at source,
    Memᴰ.head refl,
    (string_eq.test_iff source target).0 (sym (||_false (source == target)) ∙ e),
  )

  -- Where no link ends at the empty text and the source is not empty, the search for the radius ends,
  -- and it holds exactly the nodes to which `shortestPath` finds a path over directed links within
  -- the same depth.
  pub new_blast-reaches :
      source ≢ ""
      → AllNamed g.links
      → (r : BlastRadiusResult) × (new_blast g source max_depth ≡ some r)
        × ((target : String)
            → includes r.node_ids target
              ≡ is_some (new_path g source target directed max_depth any_link))
  unfolding new_blast new_path
  new_blast-reaches some_source named =
      let f : 1 + unseen (source ∷ []) (ends_of g.links) ≤ enough g.links =
        omega (arith, unseen-le (source ∷ []) (ends_of g.links), length-ends_of g.links) in
      let ends =
        blast_search-ends g.links (depth_bound max_depth) named "" (enough g.links)
          (start_at source ∷ []) (source ∷ []) (source ∷ []) (λ i. refl) f in
      rw (==_ne source "" some_source) (
        rw ends.1 (
          record { node_ids = ends.0; counts = blast_counts (blast_nodes g source ends.0) },
          refl,
          λ target.
              blast_search-search g.links (depth_bound max_depth) named target (enough g.links)
                (start_at source ∷ []) (source ∷ []) (source ∷ []) ends.0 (λ i. refl) f
                (rw (==_refl source) refl, tt) (start_waits target) ends.1
              ∙ IsSome-outcome _,
        ))
