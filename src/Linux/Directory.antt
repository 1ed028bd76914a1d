-- ===== src/Linux/Directory.antt =====
-- apps/frontend/src/services/linuxGraphAdapter.ts: the accounts of the directories and the services
-- that reach a host, `getAdUsersForHost` to `getBusinessServicesForHost`.
use identity_access_graph.Prelude.{
  String, Bool, true, false, List, [], ◌∷◌, ◌++◌, Option, none, some, ◌==◌, string_eq, filter, map,
  ◌&&◌, not, includes, if◌then◌else◌, any, get, str, strict_equal, ◌+s◌,
}
use identity_access_graph.Linux.Graph.{
  GraphData, GraphNode, GraphLink, or_text, or_value, is_text, is_id, end_id, of_type, of_relation,
  has_text, get_node_by_id,
}
use identity_access_graph.Linux.Users.{LinuxUserAccess, privileged}

pub record ServiceAccountAccess : Type 0 where
  pub id : String
  pub display_name : String
  pub principal_name : String
  pub managed_by : Option String
  pub allowed_hosts : List String
  pub interactive_shell : Bool

abbrev pub authenticates : String → String → GraphLink → Bool
authenticates system host l =
    of_relation "AUTHENTICATES_TO" l && is_id l.target host && (l.source_system == system)

-- `n.properties?.metadata?.['adUserId'] === id`.
abbrev pub has_ad_user : GraphNode → String → Bool
has_ad_user n i = elim n.properties.metadata [
  | none ↦ false
  | some m ↦ strict_equal (get m "adUserId") (str i)
]

abbrev pub login_path : GraphNode → String → List String
login_path n host = (n.display_name +s " → AUTHENTICATES_TO → " +s host) ∷ []

module _ (g : GraphData) (host : String) where
  unfoldable pub ad_access : GraphNode → LinuxUserAccess
  ad_access n =
      let mapped = any (λ (m : GraphNode). of_type "LINUX_USER" m && has_ad_user m n.id) g.nodes in
      record {
        id = n.id;
        display_name = n.display_name;
        source_system = "ACTIVE_DIRECTORY";
        uid = none;
        shell = none;
        home_directory = none;
        locked = none;
        last_login = none;
        sudo_access = mapped;
        ssh_access = true;
        privileged_shell = mapped && privileged (or_text n.properties.shell "");
        access_paths = login_path n host;
        metadata = none;
      }

  abbrev pub ad_or : List LinuxUserAccess → Option GraphNode → List LinuxUserAccess
  ad_or rest none = rest
  ad_or rest (some n) = if of_type "USER" n then ad_access n ∷ rest else rest

  -- The users of the sources of the links, those that are nodes of type USER.
  unfoldable pub ad_users_at : List GraphLink → List LinuxUserAccess
  ad_users_at [] = []
  ad_users_at (l ∷ ls) = ad_or (ad_users_at ls) (get_node_by_id g (end_id l.source))

  unfoldable pub get_ad_users_for_host : List LinuxUserAccess
  get_ad_users_for_host = ad_users_at (filter (authenticates "ACTIVE_DIRECTORY" host) g.links)

  unfoldable pub ipa_access : GraphNode → LinuxUserAccess
  ipa_access n = record {
    id = n.id;
    display_name = n.display_name;
    source_system = "FREE_IPA";
    uid = none;
    shell = none;
    home_directory = none;
    locked = none;
    last_login = none;
    sudo_access = false;
    ssh_access = true;
    privileged_shell = false;
    access_paths = login_path n host;
    metadata = none;
  }

  abbrev pub ipa_or : List LinuxUserAccess → Option GraphNode → List LinuxUserAccess
  ipa_or rest none = rest
  ipa_or rest (some n) = ipa_access n ∷ rest

  unfoldable pub ipa_users_at : List GraphLink → List LinuxUserAccess
  ipa_users_at [] = []
  ipa_users_at (l ∷ ls) = ipa_or (ipa_users_at ls) (get_node_by_id g (end_id l.source))

  unfoldable pub get_free_ipa_users_for_host : List LinuxUserAccess
  get_free_ipa_users_for_host = ipa_users_at (filter (authenticates "FREE_IPA" host) g.links)

  abbrev pub allowed_hosts_of : GraphNode → List String
  allowed_hosts_of n =
      if of_type "MANAGED_SERVICE_ACCOUNT" n
      then host ∷ []
      else if of_type "SERVICE_ACCOUNT" n
      then or_value n.properties.allowed_host_ids []
      else []

  unfoldable pub service_access : GraphNode → ServiceAccountAccess
  service_access n =
      let shell = or_text n.properties.service_principal_name "" in
      record {
        id = n.id;
        display_name = n.display_name;
        principal_name = or_text n.properties.principal_name n.display_name;
        managed_by = n.properties.managed_by;
        allowed_hosts = allowed_hosts_of n;
        interactive_shell = not (has_text shell "/") && not (has_text shell "@");
      }

  abbrev pub service_or : List ServiceAccountAccess → Option GraphNode → List ServiceAccountAccess
  service_or rest none = rest
  service_or rest (some n) = service_access n ∷ rest

  unfoldable pub service_accounts_at : List GraphLink → List ServiceAccountAccess
  service_accounts_at [] = []
  service_accounts_at (l ∷ ls) =
      service_or (service_accounts_at ls) (get_node_by_id g (end_id l.source))

  unfoldable pub get_service_accounts_for_host : List ServiceAccountAccess
  get_service_accounts_for_host =
      service_accounts_at
        (filter (λ (l : GraphLink). of_relation "RUNS_ON" l && is_id l.target host) g.links)

-- `if (!names.includes(name)) names.push(name)`.
abbrev pub push_name : List String → String → List String
push_name names name = if includes names name then names else names ++ name ∷ []

abbrev pub push_application : List String → Option GraphNode → List String
push_application names none = names
push_application names (some n) =
    if of_type "APPLICATION" n then push_name names n.display_name else names

abbrev pub push_service : List String → Option GraphNode → List String
push_service names none = names
push_service names (some n) = push_name names n.display_name

module _ (g : GraphData) (host : String) where
  abbrev pub is_database : GraphNode → Bool
  is_database n = of_type "DATABASE" n && is_text n.properties.host_id host

  unfoldable pub get_databases_for_host : List String
  get_databases_for_host = map (λ (n : GraphNode). n.display_name) (filter is_database g.nodes)

  -- The CONNECTS_TO links to a database of the host.
  unfoldable pub database_links : List GraphLink
  database_links =
      filter
        (λ (l : GraphLink).
          of_relation "CONNECTS_TO" l
          && any (λ (n : GraphNode). is_id l.target n.id) (filter is_database g.nodes))
        g.links

  unfoldable pub applications_of : List GraphLink → List String → List String
  applications_of [] names = names
  applications_of (l ∷ ls) names =
      applications_of ls (push_application names (get_node_by_id g (end_id l.source)))

  unfoldable pub get_applications_for_host : List String
  get_applications_for_host = applications_of database_links []

  -- The inner loop, on the PART_OF links of an application.
  unfoldable pub services_of : List GraphLink → List String → List String
  services_of [] names = names
  services_of (l ∷ ls) names =
      services_of ls (push_service names (get_node_by_id g (end_id l.target)))

  unfoldable pub services_of_links : List GraphLink → List String → List String
  services_of_links [] names = names
  services_of_links (l ∷ ls) names = services_of_links ls (
      services_of
        (filter (λ (k : GraphLink). of_relation "PART_OF" k && is_id k.source (end_id l.source))
          g.links)
        names)

  unfoldable pub get_business_services_for_host : List String
  get_business_services_for_host = services_of_links database_links []
