-- ===== src/Paths/Sample.antt =====
-- A small graph, for runs of apps/frontend/src/services/graphInvestigation.ts and
-- apps/frontend/src/hooks/useGraphFilters.ts.
use identity_access_graph.Prelude.{String, [], ◌∷◌, none}
use identity_access_graph.Linux.Graph.{GraphData, GraphLink, GraphNode, Properties, by_id, by_node}

abbrev pub no_properties : Properties
no_properties = record {
  os_type = none;
  version = none;
  environment = none;
  hostname = none;
  fqdn = none;
  ip_address = none;
  owner = none;
  managed_by = none;
  team = none;
  department_id = none;
  status = none;
  owner_id = none;
  last_used = none;
  algorithm = none;
  fingerprint = none;
  shell = none;
  home_directory = none;
  service_principal_name = none;
  principal_name = none;
  host_id = none;
  ip_addresses = none;
  host_ids = none;
  commands = none;
  group_ids = none;
  run_as_users = none;
  member_ids = none;
  allowed_host_ids = none;
  nopasswd = none;
  locked = none;
  key_size = none;
  gid = none;
  uid = none;
  metadata = none;
}

abbrev pub node : String → String → String → GraphNode
node id node_type level = record {
  id = id;
  display_name = id;
  node_type = node_type;
  source_system = "LINUX";
  source_id = none;
  risk_level = level;
  properties = no_properties;
}

abbrev pub link : String → String → String → String → GraphLink
link id from to type = record {
  id = id;
  source = by_id from;
  target = by_node to;
  relationship_type = type;
  source_system = "LINUX";
}

abbrev pub small : GraphData
small = record {
  nodes =
      node "u" "USER" "LOW"
      ∷ node "g" "GROUP" "NONE"
      ∷ node "h" "HOST" "HIGH"
      ∷ node "d" "DATABASE" "NONE"
      ∷ [];
  links =
      link "1" "u" "g" "MEMBER_OF"
      ∷ link "2" "g" "h" "HAS_ACCESS"
      ∷ link "3" "d" "h" "RUNS_ON"
      ∷ link "4" "h" "u" "MANAGES"
      ∷ [];
}
