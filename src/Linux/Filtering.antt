-- ===== src/Linux/Filtering.antt =====
-- apps/frontend/src/services/linuxGraphAdapter.ts: `getLinuxHostsByFilter`. `toLowerCase` is an
-- argument.
use identity_access_graph.Prelude.{
  String, Bool, false, List, [], ◌∷◌, Option, none, some, ◌==◌, string_eq, filter, ◌&&◌, ◌||◌, any,
  includes, if◌then◌else◌, length, ltb, nat_eq,
}
use identity_access_graph.Linux.Graph.{has_text, is_text}
use identity_access_graph.Linux.Host.{LinuxHostSummary}
use identity_access_graph.Linux.Policies.{Clock}
use identity_access_graph.Linux.Detail.{
  Adapter, LinuxHostDetail, get_host_detail, get_all_linux_hosts, cached,
}

pub record LinuxHostFilters : Type 0 where
  pub environment : Option (List String)
  pub operating_system : Option (List String)
  pub source_system : Option (List String)
  pub risk_level : Option (List String)
  pub ssh_access : Option String
  pub sudo_access : Option String
  pub privileged_access : Option String
  pub has_application : Option String
  pub has_database : Option String
  pub search : Option String

abbrev pub Hosts : Type 0
Hosts = List LinuxHostSummary

-- `if (wanted && wanted.length > 0) hosts = hosts.filter(test)`.
abbrev pub filter_listed :
    Option (List String) → (List String → LinuxHostSummary → Bool) → Hosts → Hosts
filter_listed none test hosts = hosts
filter_listed (some []) test hosts = hosts
filter_listed (some (w ∷ ws)) test hosts = filter (test (w ∷ ws)) hosts

-- `if (f === 'yes') hosts = hosts.filter(yes) else if (f === 'no') hosts = hosts.filter(no)`.
abbrev pub filter_answered :
    Option String → (LinuxHostSummary → Bool) → (LinuxHostSummary → Bool) → Hosts → Hosts
filter_answered none on_yes on_no hosts = hosts
filter_answered (some f) on_yes on_no hosts =
    if f == "yes" then filter on_yes hosts else if f == "no" then filter on_no hosts else hosts

abbrev pub in_environment : List String → LinuxHostSummary → Bool
in_environment ws h = includes ws h.environment

abbrev pub runs_system : List String → LinuxHostSummary → Bool
runs_system ws h = any (has_text h.operating_system) ws

abbrev pub from_source : List String → LinuxHostSummary → Bool
from_source ws h = includes ws h.source_system

abbrev pub at_risk : List String → LinuxHostSummary → Bool
at_risk ws h = includes ws h.risk_level

abbrev pub some_ssh : LinuxHostSummary → Bool
some_ssh h = ltb 0 h.ssh_enabled_identity_count

abbrev pub no_ssh : LinuxHostSummary → Bool
no_ssh h = h.ssh_enabled_identity_count == 0

abbrev pub some_sudo : LinuxHostSummary → Bool
some_sudo h = ltb 0 h.sudo_enabled_identity_count

abbrev pub no_sudo : LinuxHostSummary → Bool
no_sudo h = h.sudo_enabled_identity_count == 0

abbrev pub some_of_both : LinuxHostSummary → Bool
some_of_both h = some_sudo h && some_ssh h

abbrev pub none_of_both : LinuxHostSummary → Bool
none_of_both h = no_sudo h && no_ssh h

abbrev pub detail_has : (LinuxHostDetail → List String) → Option LinuxHostDetail → Bool
detail_has items none = false
detail_has items (some d) = ltb 0 (length (items d))

-- The filters that read the summary alone.
unfoldable pub filter_summaries : LinuxHostFilters → Hosts → Hosts
filter_summaries f hosts =
    let h1 = filter_listed f.environment in_environment hosts in
    let h2 = filter_listed f.operating_system runs_system h1 in
    let h3 = filter_listed f.source_system from_source h2 in
    let h4 = filter_listed f.risk_level at_risk h3 in
    let h5 = filter_answered f.ssh_access some_ssh no_ssh h4 in
    let h6 = filter_answered f.sudo_access some_sudo no_sudo h5 in
    filter_answered f.privileged_access some_of_both none_of_both h6

module _ (lower : String → String) where
  abbrev pub mentions : String → LinuxHostSummary → Bool
  mentions q h =
      has_text (lower h.hostname) q || has_text (lower h.fqdn) q || has_text (lower h.id) q

  unfoldable pub filter_search : Option String → Hosts → Hosts
  filter_search none hosts = hosts
  filter_search (some s) hosts = if s == "" then hosts else filter (mentions (lower s)) hosts

module _ (c : Clock) where
  -- `hostDetailCache.get(h.id) || getHostDetail(h.id)`.
  abbrev pub detail_at :
      Adapter → String → Option LinuxHostDetail → Option LinuxHostDetail × Adapter
  detail_at a i (some d) = (some d, a)
  detail_at a i none = get_host_detail c a i

  unfoldable pub keep_with : (LinuxHostDetail → List String) → Adapter → Hosts → Hosts × Adapter
  keep_with items a [] = ([], a)
  keep_with items a (h ∷ hs) =
      let r = detail_at a h.id (cached a.host_detail_cache h.id) in
      let rest = keep_with items r.1 hs in
      (if detail_has items r.0 then h ∷ rest.0 else rest.0, rest.1)

  unfoldable pub filter_details :
      Option String → (LinuxHostDetail → List String) → Adapter → Hosts → Hosts × Adapter
  filter_details wanted items a hosts =
      if is_text wanted "yes" then keep_with items a hosts else (hosts, a)

  unfoldable pub get_linux_hosts_by_filter :
      (String → String) → LinuxHostFilters → Adapter → Hosts × Adapter
  get_linux_hosts_by_filter lower f a =
      let r0 = get_all_linux_hosts c a in
      let r1 =
        filter_details f.has_application (λ d. d.applications) r0.1 (filter_summaries f r0.0) in
      let r2 = filter_details f.has_database (λ d. d.databases) r1.1 r1.0 in
      (filter_search lower f.search r2.0, r2.1)
