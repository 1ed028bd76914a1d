-- ===== src/Linux/Host.antt =====
-- apps/frontend/src/services/linuxGraphAdapter.ts: `getHostOsType` to `getHostSummary`.
use identity_access_graph.Prelude.{
  ℕ, String, Bool, false, List, [], ◌∷◌, Option, none, some, ◌==◌, string_eq, filter, if◌then◌else◌,
  ◌||◌,
}
use identity_access_graph.Linux.Graph.{
  GraphData, GraphNode, Properties, get_node_by_id, find_linked_node_ids, at_target, or_text,
  or_value, is_set, has_text, of_type,
}

pub record LinuxHostSummary : Type 0 where
  pub id : String
  pub hostname : String
  pub fqdn : String
  pub operating_system : String
  pub environment : String
  pub ip_addresses : List String
  pub site : String
  pub subnet : String
  pub owner : String
  pub team : String
  pub status : String
  pub risk_level : String
  pub source_system : String
  pub is_linux : Bool
  pub os_type : String
  pub accessible_user_count : ℕ
  pub accessible_group_count : ℕ
  pub sudo_enabled_identity_count : ℕ
  pub ssh_enabled_identity_count : ℕ

abbrev pub node_of_type : String → Option GraphNode → Bool
node_of_type t none = false
node_of_type t (some n) = of_type t n

abbrev pub display_name_or : Option GraphNode → String → String
display_name_or none d = d
display_name_or (some n) d = if n.display_name == "" then d else n.display_name

abbrev pub subnet_or : String → Option GraphNode → String
subnet_or rest none = rest
subnet_or rest (some n) = if of_type "SUBNET" n then n.display_name else rest

-- `getEnvironment` of a node.
unfoldable pub environment_of : GraphNode → String
environment_of n =
    let hostname = or_text n.properties.hostname n.display_name in
    or_text n.properties.environment (
      if has_text hostname "prod"
      then "Production"
      else if has_text hostname "dev" || has_text hostname "test"
      then "Development"
      else if has_text hostname "stg" || has_text hostname "stage"
      then "Staging"
      else "Unknown")

-- `if (!os) return ''`, and what is read of the system.
abbrev pub os_type_of : Option GraphNode → String
os_type_of none = ""
os_type_of (some n) = or_text n.properties.os_type ""

abbrev pub os_name_of : Option GraphNode → String
os_name_of none = "Unknown"
os_name_of (some n) = or_text n.properties.version n.display_name

-- `if (!node) return 'Unknown'`.
abbrev pub environment_or : Option GraphNode → String
environment_or none = "Unknown"
environment_or (some n) = environment_of n

module _ (g : GraphData) where
  unfoldable pub os_type_at : List String → String
  os_type_at [] = ""
  os_type_at (os ∷ _) = os_type_of (get_node_by_id g os)

  unfoldable pub get_host_os_type : String → String
  unfolding os_type_at
  get_host_os_type host = os_type_at (find_linked_node_ids g host "RUNS_ON" at_target)

  unfoldable pub os_name_at : List String → String
  os_name_at [] = "Unknown"
  os_name_at (os ∷ _) = os_name_of (get_node_by_id g os)

  unfoldable pub get_host_os_name : String → String
  unfolding os_name_at
  get_host_os_name host = os_name_at (find_linked_node_ids g host "RUNS_ON" at_target)

  unfoldable pub site_at : List String → String
  site_at [] = "Unknown"
  site_at (site ∷ _) = display_name_or (get_node_by_id g site) site

  unfoldable pub get_host_site : String → String
  unfolding site_at
  get_host_site host = site_at (find_linked_node_ids g host "LOCATED_IN" at_target)

  abbrev pub is_subnet : String → Bool
  is_subnet i = node_of_type "SUBNET" (get_node_by_id g i)

  -- The loop that `getHostSubnet` runs when no target is a subnet.
  unfoldable pub any_subnet : List String → String
  any_subnet [] = "Unknown"
  any_subnet (t ∷ ts) = subnet_or (any_subnet ts) (get_node_by_id g t)

  unfoldable pub subnet_at : List String → List String → String
  unfolding any_subnet
  subnet_at targets [] = any_subnet targets
  subnet_at targets (s ∷ _) = display_name_or (get_node_by_id g s) s

  unfoldable pub get_host_subnet : String → String
  unfolding subnet_at
  get_host_subnet host =
      let targets = find_linked_node_ids g host "LOCATED_IN" at_target in
      subnet_at targets (filter is_subnet targets)

  -- `getEnvironment` of an id.
  unfoldable pub get_environment : String → String
  get_environment i = environment_or (get_node_by_id g i)

  abbrev pub addresses : Properties → List String
  addresses p =
      or_value p.ip_addresses (if is_set p.ip_address then or_text p.ip_address "" ∷ [] else [])

  unfoldable pub get_host_summary : GraphNode → LinuxHostSummary
  get_host_summary n =
      let os_type = get_host_os_type n.id in
      record {
        id = n.id;
        hostname = or_text n.properties.hostname n.display_name;
        fqdn = or_text n.properties.fqdn "";
        operating_system = get_host_os_name n.id;
        environment = environment_of n;
        ip_addresses = addresses n.properties;
        site = get_host_site n.id;
        subnet = get_host_subnet n.id;
        owner = or_text n.properties.owner (or_text n.properties.managed_by "");
        team = or_text n.properties.team (or_text n.properties.department_id "");
        status = or_text n.properties.status "ACTIVE";
        risk_level = n.risk_level;
        source_system = n.source_system;
        is_linux = (os_type == "LINUX") || (os_type == "LINUX_OS") || of_type "COMPUTER" n;
        os_type = os_type;
        accessible_user_count = 0;
        accessible_group_count = 0;
        sudo_enabled_identity_count = 0;
        ssh_enabled_identity_count = 0;
      }
