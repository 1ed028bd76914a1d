-- ===== src/Linux/Detail.antt =====
-- apps/frontend/src/services/linuxGraphAdapter.ts: the module's state, `setLinuxGraphData`,
-- `clearCache`, `getHostDetail` and `getAllLinuxHosts`.
use identity_access_graph.Prelude.{
  ℕ, ◌+◌, String, Bool, List, [], ◌∷◌, ◌++◌, Option, none, some, ◌==◌, string_eq, filter, ◌||◌,
  length, if◌then◌else◌,
}
use identity_access_graph.Linux.Graph.{GraphData, GraphNode, of_type, get_node_by_id}
use identity_access_graph.Linux.Host.{LinuxHostSummary, get_host_summary}
use identity_access_graph.Linux.Policies.{
  Clock, SudoPolicyAccess, SshKeyAccess, find_sudo_policies_for_host, find_ssh_keys_for_user,
}
use identity_access_graph.Linux.Users.{LinuxUserAccess, LinuxGroupAccess, get_linux_users_for_host}
use identity_access_graph.Linux.Directory.{
  ServiceAccountAccess, get_ad_users_for_host, get_free_ipa_users_for_host,
  get_service_accounts_for_host, get_applications_for_host, get_databases_for_host,
  get_business_services_for_host,
}

pub record LinuxHostDetail : Type 0 where
  pub host : LinuxHostSummary
  pub direct_linux_users : List LinuxUserAccess
  pub linux_groups : List LinuxGroupAccess
  pub ad_users : List LinuxUserAccess
  pub free_ipa_users : List LinuxUserAccess
  pub service_accounts : List ServiceAccountAccess
  pub sudo_policies : List SudoPolicyAccess
  pub ssh_keys : List SshKeyAccess
  pub applications : List String
  pub databases : List String
  pub business_services : List String

-- `graphData` and `hostDetailCache`.
pub record Adapter : Type 0 where
  pub graph_data : GraphData
  pub host_detail_cache : List (String × LinuxHostDetail)

unfoldable pub clear_cache : Adapter → Adapter
clear_cache a = record a { host_detail_cache = [] }

unfoldable pub set_linux_graph_data : GraphData → Adapter → Adapter
unfolding clear_cache
set_linux_graph_data g a = clear_cache (record a { graph_data = g })

abbrev pub cached : List (String × LinuxHostDetail) → String → Option LinuxHostDetail
cached [] i = none
cached ((k, d) ∷ kds) i = if k == i then some d else cached kds i

abbrev pub is_host : GraphNode → Bool
is_host n = of_type "HOST" n || of_type "COMPUTER" n

module _ (c : Clock) where
  unfoldable pub keys_of_users : GraphData → List LinuxUserAccess → List SshKeyAccess
  keys_of_users g [] = []
  keys_of_users g (u ∷ us) = find_ssh_keys_for_user c g u.id ++ keys_of_users g us

  -- The detail of a node that is a host, and the graph that is left.
  unfoldable pub host_detail_of : GraphData → GraphNode → String → LinuxHostDetail × GraphData
  host_detail_of g n host =
      let linux = get_linux_users_for_host g host in
      let users = (linux.0).users in
      let g1 = linux.1 in
      (
        record {
          host = get_host_summary g n;
          direct_linux_users = users;
          linux_groups = (linux.0).groups;
          ad_users = get_ad_users_for_host g1 host;
          free_ipa_users = get_free_ipa_users_for_host g1 host;
          service_accounts = get_service_accounts_for_host g1 host;
          sudo_policies = find_sudo_policies_for_host g1 host;
          ssh_keys = keys_of_users g1 users;
          applications = get_applications_for_host g1 host;
          databases = get_databases_for_host g1 host;
          business_services = get_business_services_for_host g1 host;
        },
        g1,
      )

  -- `hostDetailCache.set(hostId, detail)`, of a host that has no entry yet.
  unfoldable pub store_detail : Adapter → String → LinuxHostDetail × GraphData → Adapter
  store_detail a host r = record {
    graph_data = r.1;
    host_detail_cache = a.host_detail_cache ++ (host, r.0) ∷ [];
  }

  unfoldable pub new_detail : Adapter → String → Option GraphNode → Option LinuxHostDetail × Adapter
  new_detail a host none = (none, a)
  new_detail a host (some n) =
      if is_host n
      then (
        some (host_detail_of a.graph_data n host).0,
        store_detail a host (host_detail_of a.graph_data n host),
      )
      else (none, a)

  unfoldable pub detail_or_new :
      Adapter → String → Option LinuxHostDetail → Option LinuxHostDetail × Adapter
  detail_or_new a host (some d) = (some d, a)
  detail_or_new a host none = new_detail a host (get_node_by_id a.graph_data host)

  unfoldable pub get_host_detail : Adapter → String → Option LinuxHostDetail × Adapter
  get_host_detail a host = detail_or_new a host (cached a.host_detail_cache host)

abbrev pub with_sudo : List LinuxUserAccess → ℕ
with_sudo us = length (filter (λ (u : LinuxUserAccess). u.sudo_access) us)

abbrev pub with_ssh : List LinuxUserAccess → ℕ
with_ssh us = length (filter (λ (u : LinuxUserAccess). u.ssh_access) us)

unfoldable pub with_counts : LinuxHostSummary → Option LinuxHostDetail → LinuxHostSummary
with_counts s none = s
with_counts s (some d) = record s {
  accessible_user_count = length d.direct_linux_users + length d.ad_users + length d.free_ipa_users;
  accessible_group_count = length d.linux_groups;
  sudo_enabled_identity_count = with_sudo d.direct_linux_users + with_sudo d.ad_users;
  ssh_enabled_identity_count =
      with_ssh d.direct_linux_users + with_ssh d.ad_users + with_ssh d.free_ipa_users;
}

module _ (c : Clock) where
  unfoldable pub summaries : Adapter → List GraphNode → List LinuxHostSummary × Adapter
  summaries a [] = ([], a)
  summaries a (n ∷ ns) =
      let s = get_host_summary a.graph_data n in
      let r = get_host_detail c a n.id in
      let rest = summaries r.1 ns in (with_counts s r.0 ∷ rest.0, rest.1)

  unfoldable pub get_all_linux_hosts : Adapter → List LinuxHostSummary × Adapter
  get_all_linux_hosts a = summaries a (filter is_host a.graph_data.nodes)
