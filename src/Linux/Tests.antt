-- ===== src/Linux/Tests.antt =====
-- A small graph for apps/frontend/src/services/linuxGraphAdapter.ts, runs on it, and the theorems at
-- it.
use identity_access_graph.Prelude.{
  map_some, push_missing, String, true, false, [], ◌∷◌, ◌++◌, none, some, ◌≡◌, refl, map, filter,
  includes, string_eq,
}
use identity_access_graph.Linux.Graph.{
  GraphData, GraphNode, GraphLink, Properties, by_id, by_node, LinkEnd, of_type,
}
use identity_access_graph.Linux.Policies.{Clock}
use identity_access_graph.Linux.Detail.{get_host_detail}
use identity_access_graph.Linux.Effective.{compute_effective_access}
use identity_access_graph.Linux.Depends.{compute_dependencies}
use identity_access_graph.Linux.Filtering.{LinuxHostFilters, get_linux_hosts_by_filter}
use identity_access_graph.Linux.Calls.{
  TimedCalls, moments, load, all_hosts, host_detail, risk_findings, effective_access, calls_leave,
  initial,
}
use identity_access_graph.Linux.Pure.{detail_in, rows_in}
use identity_access_graph.Linux.Criteria.{meets}
use identity_access_graph.Linux.Viewed.{Seen}
use identity_access_graph.Linux.Ageless.{ageless}
use identity_access_graph.Linux.Selected.{get_host_detail-loaded, get_linux_hosts_by_filter-meets}
use identity_access_graph.Linux.Needed.{is_dependency}
use identity_access_graph.Linux.Dependency.{compute_dependencies-lists}
use identity_access_graph.Linux.Listed.{IsDistinct, ids_of}
use identity_access_graph.Linux.Granted.{logins}
use identity_access_graph.Linux.Rights.{
  rights_of, rights, linux_rights, ad_rights, ipa_rights, compute_effective_access-rights,
}
use identity_access_graph.Linux.Graph.{get_node_by_id, find_linked_node_ids}
use identity_access_graph.Linux.Host.{site_at, environment_of, get_environment, get_host_site}
use identity_access_graph.Linux.Directory.{
  get_business_services_for_host, services_of, get_ad_users_for_host, database_links,
  get_free_ipa_users_for_host, ad_users_at, services_of_links, ad_access, applications_of,
  ipa_access, ipa_users_at, get_applications_for_host,
}
use identity_access_graph.Linux.Policies.{
  sudo_policies_among, sudo_policy_access, find_sudo_policies_for_host,
}
use identity_access_graph.Linux.Users.{
  access_paths_of, get_linux_users_for_host, linux_access, push_memberships, collect_groups,
  privileged, ssh_user_ids, sudo_group_ids, set_group, user_access,
}
use identity_access_graph.Linux.Depends.{
  add_members, add_groups, add_ad_users, add_nodes, found_dependencies, compute_dependencies,
  add_node, add_dependency, add_policies,
}
use identity_access_graph.Linux.Effective.{
  ad_entry, linux_entry, compute_effective_access, ipa_entry,
}

abbrev no_properties : Properties
no_properties = record {
  os_type = none;
  version = none;
  environment = none;
  hostname = none;
  fqdn = none;
  ip_address = none;
  owner = none;
  managed_by = none;
  team = none;
  department_id = none;
  status = none;
  owner_id = none;
  last_used = none;
  algorithm = none;
  fingerprint = none;
  shell = none;
  home_directory = none;
  service_principal_name = none;
  principal_name = none;
  host_id = none;
  ip_addresses = none;
  host_ids = none;
  commands = none;
  group_ids = none;
  run_as_users = none;
  member_ids = none;
  allowed_host_ids = none;
  nopasswd = none;
  locked = none;
  key_size = none;
  gid = none;
  uid = none;
  metadata = none;
}

abbrev node : String → String → Properties → GraphNode
node id type properties = record {
  id = id;
  display_name = id;
  node_type = type;
  source_system = "LINUX";
  source_id = none;
  risk_level = "LOW";
  properties = properties;
}

abbrev link : LinkEnd → String → String → GraphLink
link source_end relation target = record {
  id = relation;
  source = source_end;
  target = by_id target;
  relationship_type = relation;
  source_system = "ACTIVE_DIRECTORY";
}

-- Ann is in the group `ops` by a link; the policy names no group, but `ops` has access to it.
abbrev sample : GraphData
sample = record {
  nodes =
      node "web" "HOST" (record no_properties { hostname = some "web-prod" })
      ∷ node "mail" "COMPUTER" no_properties
      ∷ node "ops" "LINUX_GROUP" (record no_properties { member_ids = some [] })
      ∷ node "ann" "LINUX_USER" (record no_properties { group_ids = some [] })
      ∷ node "bob" "LINUX_USER" no_properties
      ∷ node "key" "SSH_KEY" (record no_properties { owner_id = some "bob" })
      ∷ node "all" "SUDO_POLICY"
          (record no_properties { host_ids = some ("web" ∷ []); commands = some ("ALL" ∷ []) })
      ∷ node "eve" "USER" no_properties
      ∷ node "store" "DATABASE" (record no_properties { host_id = some "web" })
      ∷ [];
  links =
      link (by_id "ann") "MEMBER_OF" "ops"
      ∷ link (by_id "ops") "HAS_ACCESS" "all"
      ∷ link (by_node "eve") "AUTHENTICATES_TO" "web"
      ∷ [];
}

abbrev clock : Clock
clock = record { read_date = λ _. none; one_year_ago = 0 }

-- `ann` may use sudo, and has no key; `bob` has a key only, and it counts as inherited.
rights_found :
    map rights_of (compute_effective_access sample "web").0
    ≡ rights "ann" true false false
      ∷ rights "bob" false false true
      ∷ rights "eve" false true false
      ∷ []
unfolding get_node_by_id find_sudo_policies_for_host sudo_policies_among sudo_policy_access
    push_missing push_memberships sudo_group_ids ssh_user_ids set_group privileged collect_groups
    access_paths_of user_access linux_access get_linux_users_for_host ad_access ad_users_at
    get_ad_users_for_host ipa_users_at ipa_access get_free_ipa_users_for_host linux_entry ad_entry
    ipa_entry compute_effective_access
rights_found = refl

dependencies_found :
    ids_of (compute_dependencies sample "web") ≡ "ops" ∷ "ann" ∷ "eve" ∷ "store" ∷ []
unfolding add_dependency add_nodes add_node add_ad_users add_members add_groups add_policies
    found_dependencies compute_dependencies find_linked_node_ids environment_of site_at
    get_host_site get_environment get_node_by_id find_sudo_policies_for_host sudo_policies_among
    sudo_policy_access ad_access ad_users_at get_ad_users_for_host applications_of
    get_applications_for_host services_of_links services_of get_business_services_for_host
    database_links
dependencies_found = refl

-- A year and more later.
abbrev later_clock : Clock
later_clock = record { read_date = λ _. some 5; one_year_ago = 10 }

abbrev calls : TimedCalls
calls =
    (clock, load sample)
    ∷ (clock, all_hosts)
    ∷ (clock, risk_findings "web")
    ∷ (later_clock, effective_access "mail")
    ∷ (later_clock, host_detail "web")
    ∷ []

abbrev filters : LinuxHostFilters
filters = record {
  environment = some ("Production" ∷ []);
  operating_system = none;
  source_system = some [];
  risk_level = none;
  ssh_access = some "yes";
  sudo_access = none;
  privileged_access = some "yes";
  has_application = none;
  has_database = some "yes";
  search = some "WEB";
}

get_host_detail-loaded_example :
    let o = (get_host_detail later_clock (calls_leave (λ s. s) initial calls) "web").0 in
    Seen (later_clock ∷ moments [] calls) sample "web" o
    × (map_some ageless o ≡ map_some ageless (detail_in later_clock sample "web"))
get_host_detail-loaded_example = get_host_detail-loaded (λ s. s) calls later_clock "web"

get_linux_hosts_by_filter-meets_example :
    (get_linux_hosts_by_filter later_clock (λ s. s) filters (calls_leave (λ s. s) initial calls)).0
    ≡ filter (meets later_clock (λ s. s) sample filters) (rows_in later_clock sample)
get_linux_hosts_by_filter-meets_example =
    get_linux_hosts_by_filter-meets (λ s. s) calls later_clock filters

compute_dependencies-lists_example :
    IsDistinct (ids_of (compute_dependencies sample "web"))
    × ((i : String)
        → includes (ids_of (compute_dependencies sample "web")) i ≡ is_dependency sample "web" i)
compute_dependencies-lists_example = compute_dependencies-lists sample "web"

compute_effective_access-rights_example :
    map rights_of (compute_effective_access sample "web").0
    ≡ map (linux_rights sample "web") (filter (of_type "LINUX_USER") sample.nodes)
      ++ (map
            (ad_rights sample "web")
            (filter (of_type "USER") (logins sample "ACTIVE_DIRECTORY" "web"))
          ++ map (ipa_rights sample "web") (logins sample "FREE_IPA" "web"))
compute_effective_access-rights_example = compute_effective_access-rights sample "web"
