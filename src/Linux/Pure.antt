-- ===== src/Linux/Pure.antt =====
-- A reading of `getHostDetail` and `getAllLinuxHosts`
-- (apps/frontend/src/services/linuxGraphAdapter.ts) that has no state: every part is read out of
-- the graph as it was loaded. No cache, and no array that grows.
use identity_access_graph.Prelude.{
  String, List, [], ◌∷◌, ◌++◌, Option, none, some, ◌≡◌, refl, ap, ap₂, if◌then◌else◌, map, filter,
}
use identity_access_graph.Linux.Graph.{GraphData, GraphNode, get_node_by_id}
use identity_access_graph.Linux.Host.{get_host_summary, LinuxHostSummary}
use identity_access_graph.Linux.Policies.{Clock, find_sudo_policies_for_host}
use identity_access_graph.Linux.Users.{
  LinuxUserAccess, linux_access, get_linux_users_for_host, push_memberships, pushed_node,
}
use identity_access_graph.Linux.Directory.{
  get_ad_users_for_host, get_free_ipa_users_for_host, get_service_accounts_for_host,
  get_applications_for_host, get_databases_for_host, get_business_services_for_host,
}
use identity_access_graph.Linux.Detail.{
  LinuxHostDetail, host_detail_of, keys_of_users, is_host, with_counts,
}
use identity_access_graph.Linux.Pushed.{summary-pushed, summary-pushed_node, looked_up_both}
use identity_access_graph.Linux.Same.{linux_access-pushed, policies-pushed, ssh_keys-pushed}
use identity_access_graph.Linux.SameLogins.{
  ad-pushed, ipa-pushed, services-pushed, databases-pushed, applications-pushed, business-pushed,
}

module _ (c : Clock) where
  abbrev pub pure_detail : GraphData → GraphNode → String → LinuxHostDetail
  pure_detail g n host =
      let access = linux_access g host in
      record {
        host = get_host_summary g n;
        direct_linux_users = access.users;
        linux_groups = access.groups;
        ad_users = get_ad_users_for_host g host;
        free_ipa_users = get_free_ipa_users_for_host g host;
        service_accounts = get_service_accounts_for_host g host;
        sudo_policies = find_sudo_policies_for_host g host;
        ssh_keys = keys_of_users c g access.users;
        applications = get_applications_for_host g host;
        databases = get_databases_for_host g host;
        business_services = get_business_services_for_host g host;
      }

  abbrev pub pure_detail_of : GraphData → String → Option GraphNode → Option LinuxHostDetail
  pure_detail_of g host none = none
  pure_detail_of g host (some n) = if is_host n then some (pure_detail g n host) else none

  -- What the page is to show of a host, and of all of them.
  abbrev pub detail_in : GraphData → String → Option LinuxHostDetail
  detail_in g host = pure_detail_of g host (get_node_by_id g host)

  abbrev pub row_in : GraphData → GraphNode → LinuxHostSummary
  row_in g n = with_counts (get_host_summary g n) (detail_in g n.id)

  abbrev pub rows_in : GraphData → List LinuxHostSummary
  rows_in g = map (row_in g) (filter is_host g.nodes)

  keys_of_users-pushed :
      (g : GraphData) (us : List LinuxUserAccess)
      → keys_of_users c (push_memberships g) us ≡ keys_of_users c g us
  unfolding keys_of_users
  keys_of_users-pushed g [] = refl
  keys_of_users-pushed g (u ∷ us) =
      ap₂ (λ a b. a ++ b) (ssh_keys-pushed g c u.id) (keys_of_users-pushed g us)

  -- The code reads most parts behind the pushes.
  pub host_detail_of-pure :
      (g : GraphData) (n : GraphNode) (host : String)
      → (host_detail_of c g n host).0 ≡ pure_detail g n host
  unfolding host_detail_of get_linux_users_for_host
  host_detail_of-pure g n host =
      rw
        (
          ad-pushed g host,
          ipa-pushed g host,
          services-pushed g host,
          policies-pushed g host,
          keys_of_users-pushed g (linux_access g host).users,
          applications-pushed g host,
          databases-pushed g host,
          business-pushed g host,
        )
        refl

  pure_detail-pushed :
      (g : GraphData) (n : GraphNode) (host : String)
      → pure_detail (push_memberships g) (pushed_node g.links n) host ≡ pure_detail g n host
  pure_detail-pushed g n host =
      rw
        (
          linux_access-pushed g host,
          ad-pushed g host,
          ipa-pushed g host,
          services-pushed g host,
          policies-pushed g host,
          keys_of_users-pushed g (linux_access g host).users,
          applications-pushed g host,
          databases-pushed g host,
          business-pushed g host,
          summary-pushed g (pushed_node g.links n),
          summary-pushed_node g n,
        )
        refl

  -- The reading is the same before and after the pushes.
  pub detail_in-pushed :
      (g : GraphData) (host : String) → detail_in (push_memberships g) host ≡ detail_in g host
  detail_in-pushed g host =
      looked_up_both g (pure_detail_of (push_memberships g) host) (pure_detail_of g host) refl
        (λ n. ap (λ d. if is_host n then some d else none) (pure_detail-pushed g n host)) host
