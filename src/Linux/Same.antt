-- ===== src/Linux/Same.antt =====
-- What `getLinuxUsersForHost`, the policies and the keys
-- (apps/frontend/src/services/linuxGraphAdapter.ts) give is the same before and after its pushes.
use identity_access_graph.Prelude.{
  String, true, List, [], ◌∷◌, ◌++◌, Option, ◌≡◌, refl, ap, ap₂, ◌∙◌, string_eq, Bool-cases, inl,
  inr, filter, map, includes, if◌then◌else◌, filter-map_same, map-map_same, ◌&&◌,
}
use identity_access_graph.Linux.Graph.{GraphData, GraphNode, GraphLink, of_type, or_value, is_text}
use identity_access_graph.Linux.Policies.{
  Clock, sudo_policies_among, sudo_policy_access, find_sudo_policies_for_host,
  find_ssh_keys_for_user, ssh_key_access, SudoPolicyAccess, ids_or, raw_group_ids,
}
use identity_access_graph.Linux.Users.{
  pushed_node, push_memberships, ssh_user_ids, owner_of, collect_groups, group_access, set_group,
  user_access, linux_access, LinuxAccess, LinuxGroupAccess, LinuxUserAccess, sudo_group_ids,
}
use identity_access_graph.Linux.Members.{members-pushed, groups-pushed}

-- The node of a policy has no array that is pushed to.
policy-group_ids :
    (ls : List GraphLink) (n : GraphNode)
    → of_type "SUDO_POLICY" n ≡ true
    → (pushed_node ls n).properties.group_ids ≡ n.properties.group_ids
policy-group_ids ls n e =
    let p : n.node_type ≡ "SUDO_POLICY" = (string_eq.test_iff n.node_type "SUDO_POLICY").0 e in
    rw p refl

module _ (g : GraphData) where
  policy_access-pushed :
      (n : GraphNode) (hs : List String)
      → of_type "SUDO_POLICY" n ≡ true
      → sudo_policy_access (push_memberships g) (pushed_node g.links n) hs
        ≡ sudo_policy_access g n hs
  unfolding sudo_policy_access push_memberships
  policy_access-pushed n hs e =
      ap
        (λ (is : Option (List String)). record (sudo_policy_access g n hs) {
          group_ids = ids_or (or_value is []) (raw_group_ids g n.id);
        })
        (policy-group_ids g.links n e)

  policies_of-pushed :
      (host : String) (ns : List GraphNode)
      → sudo_policies_among
          (push_memberships g)
          host
          (filter (of_type "SUDO_POLICY") (map (pushed_node g.links) ns))
        ≡ sudo_policies_among g host (filter (of_type "SUDO_POLICY") ns)
  unfolding sudo_policies_among
  policies_of-pushed host [] = refl
  policies_of-pushed host (n ∷ ns) = elim (Bool-cases (of_type "SUDO_POLICY" n)) [
    | inl e ↦ rw e (
        ap₂ (λ a r. if includes (or_value n.properties.host_ids []) host then a ∷ r else r)
          (policy_access-pushed n (or_value n.properties.host_ids []) e)
          (policies_of-pushed host ns))
    | inr e ↦ rw e (policies_of-pushed host ns)
  ]

  pub policies-pushed :
      (host : String)
      → find_sudo_policies_for_host (push_memberships g) host ≡ find_sudo_policies_for_host g host
  unfolding find_sudo_policies_for_host push_memberships
  policies-pushed host = policies_of-pushed host g.nodes

  pub ssh_keys-pushed :
      (c : Clock) (user : String)
      → find_ssh_keys_for_user c (push_memberships g) user ≡ find_ssh_keys_for_user c g user
  unfolding find_ssh_keys_for_user push_memberships ssh_key_access
  ssh_keys-pushed c user =
      ap (map (ssh_key_access c user)) (
        filter-map_same (pushed_node g.links)
          (λ n. of_type "SSH_KEY" n && is_text n.properties.owner_id user) (λ n. refl) g.nodes)
      ∙ map-map_same (pushed_node g.links) (ssh_key_access c user) (λ n. refl) _

module _ (ls : List GraphLink) where
  ssh_users-pushed :
      (ns : List GraphNode) → ssh_user_ids (map (pushed_node ls) ns) ≡ ssh_user_ids ns
  unfolding ssh_user_ids
  ssh_users-pushed [] = refl
  ssh_users-pushed (n ∷ ns) =
      ap (λ r. if of_type "SSH_KEY" n then owner_of n ++ r else r) (ssh_users-pushed ns)

  module _ (sudo ssh : List String) where
    group_access-pushed :
        (n : GraphNode) → group_access ls sudo ssh (pushed_node ls n) ≡ group_access ls sudo ssh n
    group_access-pushed n = rw (members-pushed ls n) refl

    collect_groups-pushed :
        (ns : List GraphNode) (found : List LinuxGroupAccess)
        → collect_groups ls sudo ssh (map (pushed_node ls) ns) found
          ≡ collect_groups ls sudo ssh ns found
    unfolding collect_groups
    collect_groups-pushed [] found = refl
    collect_groups-pushed (n ∷ ns) found =
        ap (λ a. collect_groups ls sudo ssh (map (pushed_node ls) ns) (set_group found a))
          (group_access-pushed n)
        ∙ collect_groups-pushed ns _

    user_access-pushed :
        (ps : List SudoPolicyAccess) (hs : List LinuxGroupAccess) (n : GraphNode)
        → user_access ls ps sudo ssh hs (pushed_node ls n) ≡ user_access ls ps sudo ssh hs n
    unfolding user_access
    user_access-pushed ps hs n = rw (groups-pushed ls n) refl

abbrev access_of :
    List GraphLink
    → List GraphNode
    → List GraphNode
    → List SudoPolicyAccess
    → List String
    → LinuxAccess
access_of ls gs us ps ssh =
    let sudo = sudo_group_ids ps in
    let groups = collect_groups ls sudo ssh gs [] in
    record { users = map (user_access ls ps sudo ssh groups) us; groups = groups }

access_of-pushed :
    (ls : List GraphLink) (gs us : List GraphNode) (ps : List SudoPolicyAccess) (ssh : List String)
    → access_of ls (map (pushed_node ls) gs) (map (pushed_node ls) us) ps ssh
      ≡ access_of ls gs us ps ssh
access_of-pushed ls gs us ps ssh =
    let sudo = sudo_group_ids ps in
    ap
      (λ (hs : List LinuxGroupAccess). record {
        users = map (user_access ls ps sudo ssh hs) (map (pushed_node ls) us);
        groups = hs;
      })
      (collect_groups-pushed ls sudo ssh gs [])
    ∙ ap
        (λ (found : List LinuxUserAccess). record {
          users = found;
          groups = collect_groups ls sudo ssh gs [];
        })
        (map-map_same (pushed_node ls)
          (user_access ls ps sudo ssh (collect_groups ls sudo ssh gs []))
          (user_access-pushed ls sudo ssh ps (collect_groups ls sudo ssh gs [])) us)

module _ (g : GraphData) (host : String) where
  of_type-pushed :
      (t : String)
      → filter (of_type t) (push_memberships g).nodes
        ≡ map (pushed_node g.links) (filter (of_type t) g.nodes)
  unfolding push_memberships
  of_type-pushed t = filter-map_same (pushed_node g.links) (of_type t) (λ n. refl) g.nodes

  pub linux_access-pushed : linux_access (push_memberships g) host ≡ linux_access g host
  unfolding linux_access push_memberships
  linux_access-pushed =
      rw
        (
          policies-pushed g host,
          ssh_users-pushed g.links g.nodes,
          of_type-pushed "LINUX_GROUP",
          of_type-pushed "LINUX_USER",
        )
        (access_of-pushed g.links (filter (of_type "LINUX_GROUP") g.nodes)
          (filter (of_type "LINUX_USER") g.nodes) (find_sudo_policies_for_host g host)
          (ssh_user_ids g.nodes))
