-- ===== src/Linux/Policies.antt =====
-- apps/frontend/src/services/linuxGraphAdapter.ts: `findSudoPoliciesForHost` and
-- `findSshKeysForUser`.
--
-- The clock gives the times that `new Date(text)` reads, none for a text that is no date, and the
-- moment one year before now. Each call of the adapter has a clock of its own.
use identity_access_graph.Prelude.{
  ℕ, String, Bool, true, false, List, [], ◌∷◌, Option, none, some, ◌==◌, string_eq, filter, map,
  ltb, ◌&&◌, ◌||◌, includes, if◌then◌else◌,
}
use identity_access_graph.Linux.Graph.{
  GraphData, GraphNode, GraphLink, or_text, or_value, is_text, is_id, end_id, of_type, of_relation,
}

pub record SudoPolicyAccess : Type 0 where
  pub id : String
  pub display_name : String
  pub commands : List String
  pub nopasswd : Bool
  pub run_as_users : List String
  pub host_ids : List String
  pub source_system : String
  pub group_ids : List String
  pub is_wildcard : Bool
  pub is_direct_root : Bool

pub record SshKeyAccess : Type 0 where
  pub id : String
  pub display_name : String
  pub algorithm : String
  pub key_size : ℕ
  pub fingerprint : String
  pub owner_id : String
  pub last_used : Option String
  pub unused : Bool

pub record Clock : Type 0 where
  pub read_date : String → Option ℕ
  pub one_year_ago : ℕ

-- `groupIds.length > 0 ? groupIds : rawGids`.
abbrev pub ids_or : List String → List String → List String
ids_or [] raw = raw
ids_or (i ∷ is) raw = i ∷ is

module _ (g : GraphData) where
  -- The sources of the HAS_ACCESS links to the policy.
  abbrev pub raw_group_ids : String → List String
  raw_group_ids policy =
      map (λ (l : GraphLink). end_id l.source)
        (filter (λ (l : GraphLink). of_relation "HAS_ACCESS" l && is_id l.target policy) g.links)

  unfoldable pub sudo_policy_access : GraphNode → List String → SudoPolicyAccess
  sudo_policy_access n host_ids =
      let commands = or_value n.properties.commands [] in
      let run_as_users = or_value n.properties.run_as_users ("root" ∷ []) in
      record {
        id = n.id;
        display_name = n.display_name;
        commands = commands;
        nopasswd = or_value n.properties.nopasswd false;
        run_as_users = run_as_users;
        host_ids = host_ids;
        source_system = n.source_system;
        group_ids = ids_or (or_value n.properties.group_ids []) (raw_group_ids n.id);
        is_wildcard = includes commands "ALL";
        is_direct_root = includes run_as_users "root" && includes commands "ALL";
      }

  -- The loop of `findSudoPoliciesForHost`, on the nodes of type SUDO_POLICY.
  unfoldable pub sudo_policies_among : String → List GraphNode → List SudoPolicyAccess
  sudo_policies_among host [] = []
  sudo_policies_among host (n ∷ ns) =
      let rest = sudo_policies_among host ns in
      let host_ids = or_value n.properties.host_ids [] in
      if includes host_ids host then sudo_policy_access n host_ids ∷ rest else rest

  unfoldable pub find_sudo_policies_for_host : String → List SudoPolicyAccess
  find_sudo_policies_for_host host =
      sudo_policies_among host (filter (of_type "SUDO_POLICY") g.nodes)

module _ (c : Clock) where
  -- `!lastUsed || new Date(lastUsed) < oneYearAgo`: no date is before another.
  unfoldable pub is_unused : Option String → Bool
  is_unused none = true
  is_unused (some d) =
      (d == "") || elim (c.read_date d) [ none ↦ false | some t ↦ ltb t c.one_year_ago ]

  unfoldable pub ssh_key_access : String → GraphNode → SshKeyAccess
  unfolding is_unused
  ssh_key_access user n = record {
    id = n.id;
    display_name = n.display_name;
    algorithm = or_text n.properties.algorithm "Unknown";
    key_size = or_value n.properties.key_size 0;
    fingerprint = or_text n.properties.fingerprint "";
    owner_id = user;
    last_used = n.properties.last_used;
    unused = is_unused n.properties.last_used;
  }

  unfoldable pub find_ssh_keys_for_user : GraphData → String → List SshKeyAccess
  unfolding ssh_key_access
  find_ssh_keys_for_user g user = map (ssh_key_access user) (
      filter (λ (n : GraphNode). of_type "SSH_KEY" n && is_text n.properties.owner_id user) g.nodes)
