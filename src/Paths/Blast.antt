-- ===== src/Paths/Blast.antt =====
-- `blastRadius`, `attackPath` and `subgraph` of apps/frontend/src/services/graphInvestigation.ts.
--
-- A round of the `while` loop of `blastRadius` takes one unit of fuel: without any left there is no
-- result.
use identity_access_graph.Prelude.{
  ℕ, zero, suc, ◌+◌, ◌*◌, String, Bool, List, [], ◌∷◌, ◌++◌, Option, none, some, ◌==◌, string_eq,
  if◌then◌else◌, ◌&&◌, not, includes, length, leb, min, decimal, ◌+s◌, find, filter,
}
use identity_access_graph.Linux.Graph.{GraphData, GraphLink, GraphNode, end_id}
use identity_access_graph.Paths.Search.{
  directed, graph_key, PathResult, PathCache, shortest_path, depth_bound, enough,
}

pub record BlastVisit : Type 0 where
  pub id : String
  pub depth : ℕ

pub record BlastFrontier : Type 0 where
  pub queue : List BlastVisit
  pub visited : List String

abbrev pub blast_offer : BlastVisit → String → BlastFrontier → BlastFrontier
blast_offer v i s = if includes s.visited i then s else record {
  queue = s.queue ++ record { id = i; depth = v.depth + 1 } ∷ [];
  visited = s.visited ++ i ∷ [];
}

-- The `for` loop over the links.
unfoldable pub blast_scan : BlastVisit → List GraphLink → BlastFrontier → BlastFrontier
blast_scan v [] s = s
blast_scan v (l ∷ ls) s =
    blast_scan v ls (if end_id l.source == v.id then blast_offer v (end_id l.target) s else s)

module _ (ls : List GraphLink) (bound : ℕ) where
  abbrev pub blast_expand : BlastVisit → BlastFrontier → BlastFrontier
  blast_expand v s = if leb bound v.depth then s else blast_scan v ls s

  -- The nodes visited when the queue is empty.
  unfoldable pub blast_search : ℕ → List BlastVisit → List String → Option (List String)
  blast_search fuel [] visited = some visited
  blast_search zero (v ∷ vs) visited = none
  blast_search (suc fuel) (v ∷ vs) visited =
      let s = blast_expand v (record { queue = vs; visited = visited }) in
      blast_search fuel s.queue s.visited

pub record BlastCounts : Type 0 where
  pub users : ℕ
  pub groups : ℕ
  pub hosts : ℕ
  pub apps : ℕ
  pub databases : ℕ
  pub business_services : ℕ

pub record BlastRadiusResult : Type 0 where
  pub node_ids : List String
  pub counts : BlastCounts

abbrev pub count_of_types : List GraphNode → List String → ℕ
count_of_types nodes types =
    length (filter (λ (node : GraphNode). includes types node.node_type) nodes)

abbrev pub blast_nodes : GraphData → String → List String → List GraphNode
blast_nodes g source visited =
    filter (λ (node : GraphNode). includes visited node.id && not (node.id == source)) g.nodes

abbrev pub blast_counts : List GraphNode → BlastCounts
blast_counts nodes = record {
  users = count_of_types nodes ("USER" ∷ "LINUX_USER" ∷ "SERVICE_ACCOUNT" ∷ []);
  groups = count_of_types nodes ("GROUP" ∷ "LINUX_GROUP" ∷ []);
  hosts = count_of_types nodes ("HOST" ∷ "COMPUTER" ∷ []);
  apps = count_of_types nodes ("APPLICATION" ∷ []);
  databases = count_of_types nodes ("DATABASE" ∷ []);
  business_services = count_of_types nodes ("BUSINESS_SERVICE" ∷ []);
}

abbrev blast_result : GraphData → String → Option (List String) → Option BlastRadiusResult
blast_result g source none = none
blast_result g source (some visited) =
    some (record { node_ids = visited; counts = blast_counts (blast_nodes g source visited) })

-- The result when the cache has none.
unfoldable pub new_blast : GraphData → String → ℕ → Option BlastRadiusResult
new_blast g source max_depth = blast_result g source (
    blast_search g.links (depth_bound max_depth) (enough g.links)
      (record { id = source; depth = 0 } ∷ []) (if source == "" then [] else source ∷ []))

unfoldable pub blast_key : GraphData → String → ℕ → String
blast_key g source max_depth = "blast:" +s graph_key g +s ":" +s source +s ":" +s decimal max_depth

-- The results of the cache whose keys begin with `blast:`.
abbrev pub BlastCache : Type 0
BlastCache = List (String × BlastRadiusResult)

abbrev pub cached_blast : BlastCache → String → Option BlastRadiusResult
cached_blast [] key = none
cached_blast ((k, r) ∷ krs) key = if k == key then some r else cached_blast krs key

module _ (g : GraphData) (source : String) (max_depth : ℕ) (cache : BlastCache) where
  abbrev kept_blast : Option BlastRadiusResult → Option BlastRadiusResult × BlastCache
  kept_blast none = (none, cache)
  kept_blast (some r) = (some r, cache ++ (blast_key g source max_depth, r) ∷ [])

  abbrev blast_or_new : Option BlastRadiusResult → Option BlastRadiusResult × BlastCache
  blast_or_new (some r) = (some r, cache)
  blast_or_new none = kept_blast (new_blast g source max_depth)

  unfoldable pub blast_radius : Option BlastRadiusResult × BlastCache
  blast_radius = blast_or_new (cached_blast cache (blast_key g source max_depth))

abbrev pub privilege_edges : List String
privilege_edges =
    "HAS_ROLE" ∷ "GRANTS" ∷ "HAS_PERMISSION" ∷ "HAS_ACCESS_TO" ∷ "HAS_ACCESS" ∷ "MEMBER_OF"
    ∷ "AUTHENTICATES_TO" ∷ []

abbrev pub is_privilege : GraphLink → Bool
is_privilege l = includes privilege_edges l.relationship_type

pub record AttackPathResult : Type 0 where
  pub path : PathResult
  pub risk_score : ℕ
  pub explanation : String

-- `{ NONE: 0, LOW: 5, MEDIUM: 10, HIGH: 20, CRITICAL: 30 }[level]`, for the five of `RiskLevel`.
abbrev pub risk_weight : String → ℕ
risk_weight level =
    if level == "LOW"
    then 5
    else if level == "MEDIUM"
    then 10
    else if level == "HIGH"
    then 20
    else if level == "CRITICAL"
    then 30
    else 0

abbrev pub node_with : GraphData → String → Option GraphNode
node_with g i = find (λ (node : GraphNode). node.id == i) g.nodes

abbrev pub level_of : Option GraphNode → String
level_of none = "NONE"
level_of (some node) = node.risk_level

abbrev pub name_or_id : Option GraphNode → String → String
name_or_id none i = i
name_or_id (some node) i = node.display_name

module _ (g : GraphData) (source target : String) where
  abbrev pub attack_score : PathResult → ℕ
  attack_score r =
      min 100 (35 + length r.link_ids * 8 + risk_weight (level_of (node_with g target)))

  abbrev pub explain : PathResult → String
  explain r =
      name_or_id (node_with g source) source
      +s " can reach "
      +s name_or_id (node_with g target) target
      +s " through "
      +s decimal (length r.link_ids)
      +s " privilege-bearing relationship(s)."

  abbrev pub attack_of : Option PathResult → Option AttackPathResult
  attack_of none = none
  attack_of (some r) =
      some (record { path = r; risk_score = attack_score r; explanation = explain r })

  unfoldable pub attack_path : PathCache → Option AttackPathResult × PathCache
  attack_path cache =
      let p = shortest_path g source target directed 10 (some is_privilege) cache in
      (attack_of p.0, p.1)

-- A set of ids is a list of them.
unfoldable pub subgraph : GraphData → List String → GraphData
subgraph g ids = record {
  nodes = filter (λ (node : GraphNode). includes ids node.id) g.nodes;
  links =
      filter (λ (l : GraphLink). includes ids (end_id l.source) && includes ids (end_id l.target))
        g.links;
}
