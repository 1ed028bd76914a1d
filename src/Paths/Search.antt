-- ===== src/Paths/Search.antt =====
-- `shortestPath` of apps/frontend/src/services/graphInvestigation.ts.
--
-- A round of the `while` loop takes one unit of fuel. The cache keeps the results of the module's
-- searches by key; a key that begins with `path:` has the result of a `shortestPath`.
use identity_access_graph.Prelude.{
  ℕ, zero, suc, ◌+◌, ◌*◌, String, Bool, true, List, [], ◌∷◌, ◌++◌, Option, none, some, ◌==◌,
  string_eq, if◌then◌else◌, ◌||◌, includes, length, leb, min, max, decimal, ◌+s◌, map, take,
}
use identity_access_graph.Linux.Graph.{GraphData, GraphLink, end_id}

pub data PathDirection : Type 0 where
  directed undirected : PathDirection

pub record PathResult : Type 0 where
  pub node_ids : List String
  pub link_ids : List String
  pub depth : ℕ

-- An entry of the queue.
pub record Visit : Type 0 where
  pub node_id : String
  pub nodes : List String
  pub links : List String

abbrev pub depth_of : Visit → ℕ
depth_of v = length v.links

pub record Frontier : Type 0 where
  pub queue : List Visit
  pub visited : List String

-- `!next`: the empty text is no node.
abbrev pub non_empty : String → Option String
non_empty i = if i == "" then none else some i

-- The other end of a link that leaves the node.
abbrev pub next_of : PathDirection → GraphLink → String → Option String
next_of directed l i = if end_id l.source == i then non_empty (end_id l.target) else none
next_of undirected l i =
    if end_id l.source == i
    then non_empty (end_id l.target)
    else if end_id l.target == i
    then non_empty (end_id l.source)
    else none

abbrev pub visit_from : Visit → String → String → Visit
visit_from v link i = record {
  node_id = i;
  nodes = v.nodes ++ i ∷ [];
  links = v.links ++ link ∷ [];
}

abbrev pub offer : Visit → String → Option String → Frontier → Frontier
offer v link none s = s
offer v link (some i) s =
    if includes s.visited i
    then s
    else record { queue = s.queue ++ visit_from v link i ∷ []; visited = i ∷ s.visited }

module _ (direction : PathDirection) (allowed : GraphLink → Bool) where
  -- The `for` loop over the links.
  unfoldable pub scan : Visit → List GraphLink → Frontier → Frontier
  scan v [] s = s
  scan v (l ∷ ls) s =
      scan v ls (offer v l.id (if allowed l then next_of direction l v.node_id else none) s)

pub data SearchOutcome : Type 0 where
  found : Visit → SearchOutcome
  exhausted out_of_fuel : SearchOutcome

module _ (direction : PathDirection) (allowed : GraphLink → Bool) (ls : List GraphLink)
    (target : String) (bound : ℕ) where
  -- The queue without its head, and with what the head leads to unless it is too deep.
  abbrev pub expand : Visit → Frontier → Frontier
  expand v s = if leb bound (depth_of v) then s else scan direction allowed v ls s

  unfoldable pub search : ℕ → List Visit → List String → SearchOutcome
  search fuel [] visited = exhausted
  search zero (v ∷ vs) visited = out_of_fuel
  search (suc fuel) (v ∷ vs) visited =
      let s = expand v (record { queue = vs; visited = visited }) in
      let rest = search fuel s.queue s.visited in if v.node_id == target then found v else rest

abbrev pub start_at : String → Visit
start_at i = record { node_id = i; nodes = i ∷ []; links = [] }

-- A round for the start and for each end of a link.
abbrev pub enough : List GraphLink → ℕ
enough ls = 2 * length ls + 1

abbrev pub depth_bound : ℕ → ℕ
depth_bound max_depth = min 10 (max 1 max_depth)

abbrev pub result_of : SearchOutcome → Option PathResult
result_of (found v) = some (record { node_ids = v.nodes; link_ids = v.links; depth = depth_of v })
result_of _ = none

-- The search, when the cache has no result.
unfoldable pub new_path :
    GraphData → String → String → PathDirection → ℕ → (GraphLink → Bool) → Option PathResult
new_path g source target direction max_depth allowed = result_of (
    search direction allowed g.links target (depth_bound max_depth) (enough g.links)
      (start_at source ∷ []) (source ∷ []))

abbrev direction_text : PathDirection → String
direction_text directed = "directed"
direction_text undirected = "undirected"

abbrev link_bar : List String → String
link_bar [] = ""
link_bar (i ∷ []) = i
link_bar (i ∷ j ∷ is) = i +s "|" +s link_bar (j ∷ is)

unfoldable pub graph_key : GraphData → String
graph_key g =
    decimal (length g.nodes)
    +s ":"
    +s decimal (length g.links)
    +s ":"
    +s link_bar (map (λ (l : GraphLink). l.id) (take 20 g.links))

abbrev restriction_text : Option (GraphLink → Bool) → String
restriction_text none = "all"
restriction_text (some _) = "restricted"

unfoldable pub path_key :
    GraphData → String → String → PathDirection → ℕ → Option (GraphLink → Bool) → String
path_key g source target direction max_depth allowed =
    "path:"
    +s graph_key g
    +s ":"
    +s source
    +s ":"
    +s target
    +s ":"
    +s direction_text direction
    +s ":"
    +s decimal max_depth
    +s ":"
    +s restriction_text allowed

abbrev pub PathCache : Type 0
PathCache = List (String × Option PathResult)

abbrev pub cached_path : PathCache → String → Option (Option PathResult)
cached_path [] key = none
cached_path ((k, r) ∷ krs) key = if k == key then some r else cached_path krs key

abbrev pub allowed_by : Option (GraphLink → Bool) → GraphLink → Bool
allowed_by none l = true
allowed_by (some allowed) l = allowed l

module _ (g : GraphData) (source target : String) (direction : PathDirection) (max_depth : ℕ)
    (allowed : Option (GraphLink → Bool)) where
  abbrev pub path_or_new : PathCache → Option (Option PathResult) → Option PathResult × PathCache
  path_or_new cache (some r) = (r, cache)
  path_or_new cache none =
      let r = new_path g source target direction max_depth (allowed_by allowed) in
      if source == "" || target == ""
      then (none, cache)
      else (r, cache ++ (path_key g source target direction max_depth allowed, r) ∷ [])

  unfoldable pub shortest_path : PathCache → Option PathResult × PathCache
  shortest_path cache =
      path_or_new cache (cached_path cache (path_key g source target direction max_depth allowed))
