-- ===== src/Paths/Searching.antt =====
-- What holds at each round of the `while` loop of `shortestPath`
-- (apps/frontend/src/services/graphInvestigation.ts), and what the body keeps of it.
use mathlib.Core.List.{Memᴰ}
use identity_access_graph.Prelude.{
  ℕ, ◌+◌, ◌≤◌, ◌<◌, String, Bool, true, false, List, ◌≡◌, ◌≢◌, ◌⊎◌, inl, inr, arith, includes,
  string_eq, Bool-cases, leb,
}
use identity_access_graph.Linux.Graph.{GraphLink}
use identity_access_graph.Paths.Search.{PathDirection, Visit, Frontier, depth_of, expand}
use identity_access_graph.Paths.Walks.{Edge, Walk}
use identity_access_graph.Paths.Queues.{IsLevels}
use identity_access_graph.Paths.Scanned.{
  HasId, AllTrails, Scanned, Scanned-refl, scan-Scanned, scan-covers,
}

module _ (direction : PathDirection) (allowed : GraphLink → Bool) (ls : List GraphLink)
    (source target : String) (bound : ℕ) where
  abbrev pub W : String → String → ℕ → Type 0
  W = Walk direction allowed ls

  -- The node is done with, or the queue has an entry from which it is reached in time.
  abbrev pub Covered : List Visit → List Visit → ℕ → String → Type 0
  Covered done queue k n =
      HasId done n ⊎ ((e : Visit) × (j : ℕ) × Memᴰ e queue × W e.node_id n j × (depth_of e + j ≤ k))

  pub record IsSearched (done : List Visit) (queue : List Visit) (visited : List String) (d : ℕ)
      : Type 0 where
    pub trails : AllTrails direction allowed ls source queue
    pub levels : IsLevels d queue
    pub shallow : (w : Visit) → Memᴰ w queue → depth_of w ≤ bound
    pub low : (u : Visit) → Memᴰ u done → depth_of u ≤ d
    pub seen : (i : String) → includes visited i ≡ true → HasId done i ⊎ HasId queue i
    pub missed : (u : Visit) → Memᴰ u done → u.node_id ≢ target
    pub reach :
        (u : Visit) (n : String) (j : ℕ)
        → Memᴰ u done
        → W u.node_id n j
        → depth_of u + j ≤ bound
        → Covered done queue (depth_of u + j) n
    pub origin :
        (u : Visit) × (Memᴰ u done ⊎ Memᴰ u queue) × (u.node_id ≡ source) × (depth_of u ≡ 0)

  pub weaken :
      {done queue : List Visit} {k m : ℕ} {n : String}
      → k ≤ m
      → Covered done queue k n
      → Covered done queue m n
  weaken h (inl p) = inl p
  weaken h (inr (e, j, m, w, le)) = inr (e, j, m, w, omega (arith, le, h))

  -- The body of the loop behind the tests for the target.
  pub expand-Scanned :
      (v : Visit) (s : Frontier)
      → Scanned direction allowed ls source v s (expand direction allowed ls target bound v s)
  expand-Scanned v s = elim (Bool-cases (leb bound (depth_of v))) [
    | inl e ↦ rw e (Scanned-refl direction allowed ls source v s)
    | inr e ↦ rw e (scan-Scanned direction allowed ls source v ls s (λ l m. m))
  ]

  pub expand-covers :
      (v : Visit) (s : Frontier) (l : GraphLink) (i : String)
      → depth_of v < bound
      → Edge direction allowed ls l v.node_id i
      → includes (expand direction allowed ls target bound v s).visited i ≡ true
  expand-covers v s l i h e =
      let deep : leb bound (depth_of v) ≡ false = ground arith in
      rw deep (scan-covers direction allowed ls source v ls s l i (λ l m. m) e.inside e.may e.leads)
