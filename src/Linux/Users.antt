-- ===== src/Linux/Users.antt =====
-- apps/frontend/src/services/linuxGraphAdapter.ts: `getLinuxUsersForHost`.
--
-- Its two loops push the sources and targets of the MEMBER_OF links into the arrays `memberIds` and
-- `groupIds` of the nodes themselves, so that the call changes the graph (no two nodes share an
-- array). A node without the array keeps none.
use identity_access_graph.Prelude.{
  push_missing, ℕ, String, Bool, List, [], ◌∷◌, ◌++◌, Option, none, some, ◌==◌, string_eq, filter,
  map, ◌&&◌, ◌||◌, includes, if◌then◌else◌, any, length, Object, find, ◌+s◌,
}
use identity_access_graph.Linux.Graph.{
  GraphData, GraphNode, GraphLink, or_text, or_value, is_id, end_id, of_type, of_relation, has_text,
}
use identity_access_graph.Linux.Policies.{SudoPolicyAccess, find_sudo_policies_for_host}

pub record LinuxUserAccess : Type 0 where
  pub id : String
  pub display_name : String
  pub source_system : String
  pub uid : Option ℕ
  pub shell : Option String
  pub home_directory : Option String
  pub locked : Option Bool
  pub last_login : Option String
  pub sudo_access : Bool
  pub ssh_access : Bool
  pub privileged_shell : Bool
  pub access_paths : List String
  pub metadata : Option Object

pub record LinuxGroupAccess : Type 0 where
  pub id : String
  pub display_name : String
  pub gid : ℕ
  pub member_count : ℕ
  pub sudo_access : Bool
  pub ssh_access : Bool
  pub members : List String

-- What the pushes leave in the node.
abbrev pub kept_array : Option (List String) → List String → Option (List String)
kept_array none ids = none
kept_array (some _) ids = some ids

module _ (ls : List GraphLink) where
  abbrev pub member_sources : String → List String
  member_sources group =
      map (λ (l : GraphLink). end_id l.source)
        (filter (λ (l : GraphLink). of_relation "MEMBER_OF" l && is_id l.target group) ls)

  abbrev pub member_targets : String → List String
  member_targets user =
      map (λ (l : GraphLink). end_id l.target)
        (filter (λ (l : GraphLink). of_relation "MEMBER_OF" l && is_id l.source user) ls)

  -- `memberIds` and `groupIds` when the loops have pushed.
  abbrev pub pushed_members : GraphNode → List String
  pushed_members n = push_missing (or_value n.properties.member_ids []) (member_sources n.id)

  abbrev pub pushed_groups : GraphNode → List String
  pushed_groups n = push_missing (or_value n.properties.group_ids []) (member_targets n.id)

  abbrev pub pushed_node : GraphNode → GraphNode
  pushed_node n = record n {
    properties = record n.properties {
      member_ids =
          if of_type "LINUX_GROUP" n
          then kept_array n.properties.member_ids (pushed_members n)
          else n.properties.member_ids;
      group_ids =
          if of_type "LINUX_USER" n
          then kept_array n.properties.group_ids (pushed_groups n)
          else n.properties.group_ids;
    };
  }

unfoldable pub push_memberships : GraphData → GraphData
push_memberships g = record g { nodes = map (pushed_node g.links) g.nodes }

unfoldable pub sudo_group_ids : List SudoPolicyAccess → List String
sudo_group_ids [] = []
sudo_group_ids (p ∷ ps) = p.group_ids ++ sudo_group_ids ps

abbrev pub owner_of : GraphNode → List String
owner_of n = elim n.properties.owner_id [ none ↦ [] | some o ↦ if o == "" then [] else o ∷ [] ]

-- The owners of the SSH keys, without the empty ones.
unfoldable pub ssh_user_ids : List GraphNode → List String
ssh_user_ids [] = []
ssh_user_ids (n ∷ ns) =
    let rest = ssh_user_ids ns in if of_type "SSH_KEY" n then owner_of n ++ rest else rest

-- `groupsMap.set(group.id, group)`.
unfoldable pub set_group : List LinuxGroupAccess → LinuxGroupAccess → List LinuxGroupAccess
set_group [] group = group ∷ []
set_group (h ∷ hs) group =
    let rest = set_group hs group in if h.id == group.id then group ∷ hs else h ∷ rest

unfoldable pub privileged : String → Bool
privileged shell = has_text shell "bash" || has_text shell "sh" || has_text shell "zsh"

module _ (ls : List GraphLink) (sudo ssh : List String) where
  abbrev pub group_access : GraphNode → LinuxGroupAccess
  group_access n =
      let members = pushed_members ls n in
      record {
        id = n.id;
        display_name = n.display_name;
        gid = or_value n.properties.gid 0;
        member_count = length members;
        sudo_access = includes sudo n.id;
        ssh_access = any (includes ssh) members;
        members = members;
      }

  -- The loop over the nodes of type LINUX_GROUP.
  unfoldable pub collect_groups : List GraphNode → List LinuxGroupAccess → List LinuxGroupAccess
  collect_groups [] found = found
  collect_groups (n ∷ ns) found = collect_groups ns (set_group found (group_access n))

module _ (policies : List SudoPolicyAccess) (user : String) where
  -- The texts of the ways through one group, a policy at a time.
  abbrev pub sudo_paths : LinuxGroupAccess → List SudoPolicyAccess → List String
  sudo_paths h [] = []
  sudo_paths h (p ∷ ps) =
      let rest = sudo_paths h ps in
      if includes p.group_ids h.id && h.sudo_access
      then (user +s " → " +s h.display_name +s " → " +s p.display_name +s " → Host") ∷ rest
      else rest

  abbrev pub group_paths : Option LinuxGroupAccess → List String
  group_paths none = []
  group_paths (some h) =
      if h.sudo_access || h.ssh_access
      then sudo_paths h policies
        ++ (if h.ssh_access
            then (user +s " → " +s h.display_name +s " → SSH Key → Host") ∷ []
            else [])
      else []

  unfoldable pub access_paths_of : List LinuxGroupAccess → List String → List String
  access_paths_of groups [] = []
  access_paths_of groups (i ∷ is) =
      group_paths (find (λ (h : LinuxGroupAccess). h.id == i) groups) ++ access_paths_of groups is

module _ (ls : List GraphLink) (policies : List SudoPolicyAccess) (sudo ssh : List String)
    (groups : List LinuxGroupAccess) where
  unfoldable pub user_access : GraphNode → LinuxUserAccess
  user_access n =
      let group_ids = pushed_groups ls n in
      let shell = or_text n.properties.shell "/bin/bash" in
      record {
        id = n.id;
        display_name = n.display_name;
        source_system = n.source_system;
        uid = n.properties.uid;
        shell = some shell;
        home_directory = n.properties.home_directory;
        locked = n.properties.locked;
        last_login = none;
        sudo_access = any (includes sudo) group_ids;
        ssh_access = includes ssh n.id;
        privileged_shell = privileged shell;
        access_paths = access_paths_of policies n.display_name groups group_ids;
        metadata = n.properties.metadata;
      }

pub record LinuxAccess : Type 0 where
  pub users : List LinuxUserAccess
  pub groups : List LinuxGroupAccess

-- What `getLinuxUsersForHost` returns, and the graph that it leaves.
unfoldable pub linux_access : GraphData → String → LinuxAccess
linux_access g host =
    let policies = find_sudo_policies_for_host g host in
    let sudo = sudo_group_ids policies in
    let ssh = ssh_user_ids g.nodes in
    let groups = collect_groups g.links sudo ssh (filter (of_type "LINUX_GROUP") g.nodes) [] in
    record {
      users =
          map (user_access g.links policies sudo ssh groups)
            (filter (of_type "LINUX_USER") g.nodes);
      groups = groups;
    }

unfoldable pub get_linux_users_for_host : GraphData → String → LinuxAccess × GraphData
get_linux_users_for_host g host = (linux_access g host, push_memberships g)
