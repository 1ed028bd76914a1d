-- ===== src/Linux/Effective.antt =====
-- apps/frontend/src/services/linuxGraphAdapter.ts: `computeEffectiveAccess`, the access paths that
-- are read out of it, and `computeReverseAccess`. Each gives the graph back as it leaves it.
use identity_access_graph.Prelude.{
  ℕ, ◌+◌, String, Bool, true, false, List, [], ◌∷◌, ◌++◌, Option, none, some, ◌==◌, string_eq,
  filter, find, map, ◌&&◌, not, if◌then◌else◌, length, ltb, ◌+s◌, decimal,
}
use identity_access_graph.Linux.Graph.{GraphData}
use identity_access_graph.Linux.Users.{LinuxUserAccess, LinuxGroupAccess, get_linux_users_for_host}
use identity_access_graph.Linux.Directory.{
  get_ad_users_for_host, get_free_ipa_users_for_host, get_business_services_for_host,
}

pub record PathNode : Type 0 where
  pub id : String
  pub display_name : String
  pub node_type : String
  pub relationship_type : String

pub record AccessPathEntry : Type 0 where
  pub nodes : List PathNode
  pub direct : Bool

pub record EffectiveAccessEntry : Type 0 where
  pub identity_id : String
  pub identity_name : String
  pub identity_type : String
  pub source_system : String
  pub direct_ssh : Bool
  pub inherited_ssh : Bool
  pub direct_sudo : Bool
  pub inherited_sudo : Bool
  pub privileged_shell : Bool
  pub access_paths : List AccessPathEntry

abbrev pub path_node : String → String → String → String → PathNode
path_node id name type relation = record {
  id = id;
  display_name = name;
  node_type = type;
  relationship_type = relation;
}

module _ (host : String) where
  abbrev pub path_through : LinuxUserAccess → PathNode → AccessPathEntry
  path_through u middle = record {
    nodes =
        path_node u.id u.display_name "LINUX_USER" "" ∷ middle ∷ path_node host "" "HOST" "" ∷ [];
    direct = true;
  }

  abbrev pub user_paths : LinuxUserAccess → List AccessPathEntry
  user_paths u =
      (if u.sudo_access
        then path_through u (path_node "" "Sudo Policy" "SUDO_POLICY" "HAS_ACCESS") ∷ []
        else [])
      ++ (if u.ssh_access
          then path_through u (path_node "" "SSH Key" "SSH_KEY" "OWNS") ∷ []
          else [])

  unfoldable pub linux_entry : LinuxUserAccess → EffectiveAccessEntry
  linux_entry u =
      let is_inherited = not u.sudo_access && u.ssh_access in
      record {
        identity_id = u.id;
        identity_name = u.display_name;
        identity_type = "LINUX_USER";
        source_system = u.source_system;
        direct_ssh = u.ssh_access && not is_inherited;
        inherited_ssh = is_inherited;
        direct_sudo = u.sudo_access;
        inherited_sudo = false;
        privileged_shell = u.privileged_shell;
        access_paths = user_paths u;
      }

unfoldable pub ad_entry : LinuxUserAccess → EffectiveAccessEntry
ad_entry u = record {
  identity_id = u.id;
  identity_name = u.display_name;
  identity_type = "USER";
  source_system = "ACTIVE_DIRECTORY";
  direct_ssh = u.ssh_access;
  inherited_ssh = false;
  direct_sudo = u.sudo_access;
  inherited_sudo = false;
  privileged_shell = u.privileged_shell;
  access_paths = [];
}

unfoldable pub ipa_entry : LinuxUserAccess → EffectiveAccessEntry
ipa_entry u = record {
  identity_id = u.id;
  identity_name = u.display_name;
  identity_type = "USER";
  source_system = "FREE_IPA";
  direct_ssh = true;
  inherited_ssh = false;
  direct_sudo = false;
  inherited_sudo = false;
  privileged_shell = false;
  access_paths = [];
}

unfoldable pub compute_effective_access : GraphData → String → List EffectiveAccessEntry × GraphData
compute_effective_access g host =
    let linux = get_linux_users_for_host g host in
    (
      map (linux_entry host) (linux.0).users
          ++ (map ad_entry (get_ad_users_for_host linux.1 host)
              ++ map ipa_entry (get_free_ipa_users_for_host linux.1 host)),
      linux.1,
    )

abbrev pub paths_or_none : Option EffectiveAccessEntry → List AccessPathEntry
paths_or_none none = []
paths_or_none (some e) = e.access_paths

unfoldable pub get_access_paths_for_identity :
    GraphData → String → String → List AccessPathEntry × GraphData
get_access_paths_for_identity g host identity =
    let r = compute_effective_access g host in
    (paths_or_none (find (λ (e : EffectiveAccessEntry). e.identity_id == identity) r.0), r.1)

pub record ReverseAccessSummary : Type 0 where
  pub total_identities : ℕ
  pub direct_users : List String
  pub group_members : List String
  pub sudo_users : List String
  pub ssh_only_users : List String
  pub indirect_users : List String
  pub dependent_business_services : List String
  pub impact_description : String

abbrev pub impact : String → ℕ → ℕ → String
impact host services groups =
    "If "
    +s host
    +s " is unavailable, "
    +s decimal services
    +s " business service(s) and "
    +s decimal groups
    +s " group(s) may be affected."

abbrev pub user_names : List LinuxUserAccess → List String
user_names = map (λ (u : LinuxUserAccess). u.display_name)

abbrev pub group_names : List LinuxGroupAccess → List String
group_names groups =
    map (λ (h : LinuxGroupAccess). h.display_name)
      (filter (λ (h : LinuxGroupAccess). ltb 0 h.member_count) groups)

unfoldable pub compute_reverse_access : GraphData → String → ReverseAccessSummary × GraphData
compute_reverse_access g host =
    let linux = get_linux_users_for_host g host in
    let users = (linux.0).users in
    let direct_users = user_names users in
    let group_members = group_names (linux.0).groups in
    let indirect_users = user_names (get_ad_users_for_host linux.1 host) in
    let services = get_business_services_for_host linux.1 host in
    (
      record {
        total_identities = length direct_users + length group_members + length indirect_users;
        direct_users = direct_users;
        group_members = group_members;
        sudo_users = user_names (filter (λ (u : LinuxUserAccess). u.sudo_access) users);
        ssh_only_users =
            user_names (filter (λ (u : LinuxUserAccess). u.ssh_access && not u.sudo_access) users);
        indirect_users = indirect_users;
        dependent_business_services = services;
        impact_description = impact host (length services) (length group_members);
      },
      linux.1,
    )
