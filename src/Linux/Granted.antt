-- ===== src/Linux/Granted.antt =====
-- Who may use sudo on a host and who owns a key, described by nodes and links alone, and what
-- `getLinuxUsersForHost` (apps/frontend/src/services/linuxGraphAdapter.ts) finds of it.
use identity_access_graph.Prelude.{
  any-push_missing, String, Bool, List, [], ◌∷◌, ◌++◌, Option, none, some, ◌≡◌, refl, sym, ap, ap₂,
  ◌∙◌, Bool-cases, inl, inr, if◌then◌else◌, ◌&&◌, ◌||◌, filter, any, any-append, any-ext,
  any-filter, any-swap, includes, ◌==◌, string_eq, arith,
}
use identity_access_graph.Linux.Graph.{
  GraphData, GraphNode, GraphLink, get_node_by_id, of_type, or_value, is_text, is_set, end_id,
}
use identity_access_graph.Linux.Policies.{
  SudoPolicyAccess, sudo_policies_among, sudo_policy_access, find_sudo_policies_for_host, ids_or,
  raw_group_ids,
}
use identity_access_graph.Linux.Users.{
  sudo_group_ids, ssh_user_ids, owner_of, pushed_groups, member_targets,
}
use identity_access_graph.Linux.Directory.{authenticates, has_ad_user}

abbrev pub node_or : List GraphNode → Option GraphNode → List GraphNode
node_or rest none = rest
node_or rest (some n) = n ∷ rest

module _ (g : GraphData) where
  -- The groups of a user, by its own property or by a link.
  abbrev pub groups_of : GraphNode → List String
  groups_of n = or_value n.properties.group_ids [] ++ member_targets g.links n.id

  -- The groups that a policy names, or if it names none, the sources of its HAS_ACCESS links.
  abbrev pub granted : GraphNode → List String
  granted p = ids_or (or_value p.properties.group_ids []) (raw_group_ids g p.id)

  abbrev pub grants : String → GraphNode → GraphNode → Bool
  grants host n p =
      of_type "SUDO_POLICY" p
      && (includes (or_value p.properties.host_ids []) host
          && any (includes (granted p)) (groups_of n))

  -- Some policy on the host grants sudo to a group of the user.
  abbrev pub may_sudo : String → GraphNode → Bool
  may_sudo host n = any (grants host n) g.nodes

  -- Some SSH key has the user as its owner.
  abbrev pub owns_key : String → Bool
  owns_key i =
      any
        (λ (k : GraphNode).
          of_type "SSH_KEY" k && (is_text k.properties.owner_id i && is_set k.properties.owner_id))
        g.nodes

  -- The account of the directory has a Linux user that is mapped to it.
  abbrev pub is_mapped : GraphNode → Bool
  is_mapped n = any (λ (m : GraphNode). of_type "LINUX_USER" m && has_ad_user m n.id) g.nodes

  abbrev pub nodes_at : List GraphLink → List GraphNode
  nodes_at [] = []
  nodes_at (l ∷ ls) = node_or (nodes_at ls) (get_node_by_id g (end_id l.source))

  -- The nodes that a directory lets in to the host.
  abbrev pub logins : String → String → List GraphNode
  logins system host = nodes_at (filter (authenticates system host) g.links)

includes-sudo_groups :
    (ps : List SudoPolicyAccess) (h : String)
    → includes (sudo_group_ids ps) h ≡ any (λ (p : SudoPolicyAccess). includes p.group_ids h) ps
unfolding sudo_group_ids
includes-sudo_groups [] h = refl
includes-sudo_groups (p ∷ ps) h =
    any-append (λ x. x == h) p.group_ids (sudo_group_ids ps)
    ∙ ap (λ b. includes p.group_ids h || b) (includes-sudo_groups ps h)

includes-owner :
    (n : GraphNode) (i : String)
    → includes (owner_of n) i ≡ (is_text n.properties.owner_id i && is_set n.properties.owner_id)
includes-owner n i = owner n.properties.owner_id
  where
    owner :
        (o : Option String)
        → includes (elim o [ none ↦ [] | some k ↦ if k == "" then [] else k ∷ [] ]) i
          ≡ (is_text o i && is_set o)
    owner none = refl
    owner (some k) = ground arith

pub includes-ssh_users :
    (ns : List GraphNode) (i : String)
    → includes (ssh_user_ids ns) i
      ≡ any
          (λ (k : GraphNode).
            of_type "SSH_KEY" k
            && (is_text k.properties.owner_id i && is_set k.properties.owner_id))
          ns
unfolding ssh_user_ids
includes-ssh_users [] i = refl
includes-ssh_users (n ∷ ns) i = elim (Bool-cases (of_type "SSH_KEY" n)) [
  | inl e ↦ rw e (
      any-append (λ x. x == i) (owner_of n) (ssh_user_ids ns)
      ∙ ap₂ (λ a b. a || b) (includes-owner n i) (includes-ssh_users ns i))
  | inr e ↦ rw e (includes-ssh_users ns i)
]

module _ (g : GraphData) (host : String) where
  pub any-policies :
      (q : SudoPolicyAccess → Bool) (ns : List GraphNode)
      → any q (sudo_policies_among g host ns)
        ≡ any
            (λ (n : GraphNode).
              includes (or_value n.properties.host_ids []) host
              && q (sudo_policy_access g n (or_value n.properties.host_ids [])))
            ns
  unfolding sudo_policies_among
  any-policies q [] = refl
  any-policies q (n ∷ ns) = elim (Bool-cases (includes (or_value n.properties.host_ids []) host)) [
    | inl e ↦ rw e (
        ap (λ b. q (sudo_policy_access g n (or_value n.properties.host_ids [])) || b)
          (any-policies q ns))
    | inr e ↦ rw e (any-policies q ns)
  ]

  pub sudo-may_sudo :
      (n : GraphNode)
      → any
          (includes (sudo_group_ids (find_sudo_policies_for_host g host)))
          (pushed_groups g.links n)
        ≡ may_sudo g host n
  unfolding find_sudo_policies_for_host sudo_policy_access
  sudo-may_sudo n =
      let ps = sudo_policies_among g host (filter (of_type "SUDO_POLICY") g.nodes) in
      any-push_missing (includes (sudo_group_ids ps)) (or_value n.properties.group_ids [])
        (member_targets g.links n.id)
      ∙ (sym (
            any-append (includes (sudo_group_ids ps)) (or_value n.properties.group_ids [])
              (member_targets g.links n.id))
          ∙ (any-ext (includes (sudo_group_ids ps))
                (λ h. any (λ (p : SudoPolicyAccess). includes p.group_ids h) ps)
                (includes-sudo_groups ps) (groups_of g n)
              ∙ (any-swap (λ h (p : SudoPolicyAccess). includes p.group_ids h) (groups_of g n) ps
                  ∙ (any-policies (λ p. any (includes p.group_ids) (groups_of g n))
                        (filter (of_type "SUDO_POLICY") g.nodes)
                      ∙ any-filter _ (of_type "SUDO_POLICY") g.nodes))))
