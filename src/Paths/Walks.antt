-- ===== src/Paths/Walks.antt =====
-- Paths of a graph, and what the queue of `shortestPath`
-- (apps/frontend/src/services/graphInvestigation.ts) holds of them.
use mathlib.Core.List.{Memᴰ}
use identity_access_graph.Prelude.{ℕ, suc, String, Bool, true, List, [], ◌∷◌, ◌++◌, some, ◌≡◌}
use identity_access_graph.Linux.Graph.{GraphLink}
use identity_access_graph.Paths.Search.{PathDirection, Visit, next_of}

module _ (direction : PathDirection) (allowed : GraphLink → Bool) (ls : List GraphLink) where
  -- A link that may be used leads from `a` to `b`.
  pub record Edge (l : GraphLink) (a b : String) : Type 0 where
    pub inside : Memᴰ l ls
    pub may : allowed l ≡ true
    pub leads : next_of direction l a ≡ some b

  -- From `a` to `c` in so many steps.
  pub data Walk : String → String → ℕ → Type 0 where
    stay : {a : String} → Walk a a 0
    go : {l : GraphLink} {a b c : String} {n : ℕ} → Edge l a b → Walk b c n → Walk a c (suc n)

  -- The nodes and the links of a path from `s` to `b`, in order.
  pub data Trail (s : String) : List String → List String → String → Type 0 where
    begin : Trail s (s ∷ []) [] s
    extend :
        {ns is : List String} {l : GraphLink} {a b : String}
        → Trail s ns is a
        → Edge l a b
        → Trail s (ns ++ b ∷ []) (is ++ l.id ∷ []) b

  abbrev pub IsTrail : String → Visit → Type 0
  IsTrail s v = Trail s v.nodes v.links v.node_id
