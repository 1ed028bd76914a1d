-- ===== src/Linux/Depends.antt =====
-- apps/frontend/src/services/linuxGraphAdapter.ts: `computeDependencies`.
use identity_access_graph.Prelude.{
  String, Bool, true, false, List, [], ◌∷◌, ◌++◌, Option, none, some, ◌==◌, string_eq, filter, ◌&&◌,
  ◌||◌, not, includes, if◌then◌else◌,
}
use identity_access_graph.Linux.Graph.{GraphData, GraphNode, of_type, get_node_by_id}
use identity_access_graph.Linux.Host.{get_host_site, get_environment, environment_of}
use identity_access_graph.Linux.Policies.{SudoPolicyAccess, find_sudo_policies_for_host}
use identity_access_graph.Linux.Users.{LinuxUserAccess, member_sources}
use identity_access_graph.Linux.Directory.{
  is_database, get_ad_users_for_host, get_business_services_for_host, get_applications_for_host,
}

pub data Flow : Type 0 where
  upstream downstream : Flow

pub record DependencyNode : Type 0 where
  pub id : String
  pub display_name : String
  pub node_type : String
  pub direction : Flow

-- The set `seen` and the array `result`.
pub record Dependencies : Type 0 where
  pub seen : List String
  pub result : List DependencyNode

abbrev pub nothing_found : Dependencies
nothing_found = record { seen = []; result = [] }

-- `if (!seen.has(id)) { seen.add(id); result.push(...) }`.
unfoldable pub add_dependency : Dependencies → DependencyNode → Dependencies
add_dependency s d =
    if includes s.seen d.id then s else record { seen = d.id ∷ s.seen; result = s.result ++ d ∷ [] }

abbrev pub dependency : Flow → GraphNode → DependencyNode
dependency side n = record {
  id = n.id;
  display_name = n.display_name;
  node_type = n.node_type;
  direction = side;
}

unfoldable pub add_nodes : Flow → Dependencies → List GraphNode → Dependencies
add_nodes side s [] = s
add_nodes side s (n ∷ ns) = add_nodes side (add_dependency s (dependency side n)) ns

unfoldable pub add_node : Dependencies → Option GraphNode → Dependencies
add_node s none = s
add_node s (some n) = add_dependency s (dependency upstream n)

unfoldable pub add_ad_users : Dependencies → List LinuxUserAccess → Dependencies
add_ad_users s [] = s
add_ad_users s (u ∷ us) =
    add_ad_users
      (add_dependency s (record {
        id = u.id;
        display_name = u.display_name;
        node_type = "USER";
        direction = upstream;
      }))
      us

-- `properties?.ownerId === lu?.id`: of two missing ids each is the other.
abbrev pub is_owned : Option String → Option GraphNode → Bool
is_owned none none = true
is_owned (some o) (some n) = o == n.id
is_owned _ _ = false

module _ (g : GraphData) where
  abbrev pub keys_of : Option GraphNode → List GraphNode
  keys_of user =
      filter (λ (n : GraphNode). of_type "SSH_KEY" n && is_owned n.properties.owner_id user) g.nodes

  -- The loop over the members of a group.
  unfoldable pub add_members : Dependencies → List String → Dependencies
  add_members s [] = s
  add_members s (i ∷ is) =
      let user = get_node_by_id g i in
      add_members (add_nodes upstream (add_node s user) (keys_of user)) is

  -- The loop over the groups of a policy.
  unfoldable pub add_groups : Dependencies → List String → Dependencies
  add_groups s [] = s
  add_groups s (i ∷ is) =
      add_groups (add_members (add_node s (get_node_by_id g i)) (member_sources g.links i)) is

  unfoldable pub add_policies : Dependencies → List SudoPolicyAccess → Dependencies
  add_policies s [] = s
  add_policies s (p ∷ ps) = add_policies (add_groups s p.group_ids) ps

  abbrev pub named : List String → List GraphNode
  named names = filter (λ (n : GraphNode). includes names n.display_name) g.nodes

  abbrev pub is_neighbour : String → GraphNode → Bool
  is_neighbour host n =
      (of_type "HOST" n || of_type "COMPUTER" n)
      && not (n.id == host)
      && (get_host_site g n.id == get_host_site g host)
      && (environment_of n == get_environment g host)

  -- The loops in the order of the code.
  unfoldable pub found_dependencies : String → Dependencies
  found_dependencies host =
      let s1 = add_policies nothing_found (find_sudo_policies_for_host g host) in
      let s2 = add_ad_users s1 (get_ad_users_for_host g host) in
      let s3 = add_nodes downstream s2 (filter (is_database g host) g.nodes) in
      let s4 = add_nodes downstream s3 (named (get_business_services_for_host g host)) in
      let s5 = add_nodes downstream s4 (named (get_applications_for_host g host)) in
      add_nodes downstream s5 (filter (is_neighbour host) g.nodes)

  unfoldable pub compute_dependencies : String → List DependencyNode
  compute_dependencies host = (found_dependencies host).result
