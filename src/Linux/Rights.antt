-- ===== src/Linux/Rights.antt =====
-- Who has which rights on a host: an independent description in terms of nodes and links, and the
-- proof that `computeEffectiveAccess` (apps/frontend/src/services/linuxGraphAdapter.ts) reports it.
use identity_access_graph.Prelude.{
  String, Bool, true, false, List, [], ◌∷◌, ◌++◌, Option, none, some, ◌≡◌, refl, ap, ap₂, ◌∙◌,
  Bool-cases, inl, inr, not, ◌&&◌, filter, map, map-append, any, map-map_ext, includes, string_eq,
  arith,
}
use identity_access_graph.Linux.Graph.{
  GraphData, GraphNode, GraphLink, get_node_by_id, of_type, end_id,
}
use identity_access_graph.Linux.Policies.{SudoPolicyAccess, find_sudo_policies_for_host}
use identity_access_graph.Linux.Users.{
  LinuxUserAccess, LinuxGroupAccess, linux_access, get_linux_users_for_host, user_access,
  sudo_group_ids, ssh_user_ids, pushed_groups, push_memberships,
}
use identity_access_graph.Linux.Directory.{
  ad_users_at, ad_access, ad_or, get_ad_users_for_host, ipa_users_at, ipa_access, ipa_or,
  get_free_ipa_users_for_host,
}
use identity_access_graph.Linux.Effective.{
  EffectiveAccessEntry, linux_entry, ad_entry, ipa_entry, compute_effective_access,
}
use identity_access_graph.Linux.SameLogins.{ad-pushed, ipa-pushed}
use identity_access_graph.Linux.Granted.{
  may_sudo, owns_key, is_mapped, node_or, nodes_at, logins, includes-ssh_users, sudo-may_sudo,
}

-- What an entry says of the rights of an account.
pub record Rights : Type 0 where
  pub account : String
  pub direct_sudo : Bool
  pub direct_ssh : Bool
  pub inherited_ssh : Bool

abbrev pub rights_of : EffectiveAccessEntry → Rights
rights_of e = record {
  account = e.identity_id;
  direct_sudo = e.direct_sudo;
  direct_ssh = e.direct_ssh;
  inherited_ssh = e.inherited_ssh;
}

abbrev pub rights : String → Bool → Bool → Bool → Rights
rights account sudo ssh inherited = record {
  account = account;
  direct_sudo = sudo;
  direct_ssh = ssh;
  inherited_ssh = inherited;
}

module _ (g : GraphData) (host : String) where
  -- A key counts as direct only for a user who may use sudo as well.
  abbrev pub linux_rights : GraphNode → Rights
  linux_rights n =
      rights n.id (may_sudo g host n) (owns_key g n.id && may_sudo g host n)
        (not (may_sudo g host n) && owns_key g n.id)

  abbrev pub ad_rights : GraphNode → Rights
  ad_rights n = rights n.id (is_mapped g n) true false

  abbrev pub ipa_rights : GraphNode → Rights
  ipa_rights n = rights n.id false true false

direct_if : (key sudo : Bool) → (key && not (not sudo && key)) ≡ (key && sudo)
direct_if key sudo = ground arith

module _ (g : GraphData) (host : String) where
  linux-rights :
      (ps : List SudoPolicyAccess) (hs : List LinuxGroupAccess) (n : GraphNode)
      → ps ≡ find_sudo_policies_for_host g host
      → rights_of (
          linux_entry host (user_access g.links ps (sudo_group_ids ps) (ssh_user_ids g.nodes) hs n))
        ≡ linux_rights g host n
  unfolding linux_entry user_access
  linux-rights ps hs n e =
      let sudo =
        ap (λ ps. any (includes (sudo_group_ids ps)) (pushed_groups g.links n)) e
        ∙ sudo-may_sudo g host n in
      ap₂ (λ s k. rights n.id s (k && not (not s && k)) (not s && k)) sudo
        (includes-ssh_users g.nodes n.id)
      ∙ ap (λ b. rights n.id (may_sudo g host n) b (not (may_sudo g host n) && owns_key g n.id))
          (direct_if (owns_key g n.id) (may_sudo g host n))

  ad-or_nodes :
      (o : Option GraphNode) (us : List LinuxUserAccess) (ns : List GraphNode)
      → us ≡ map (ad_access g host) (filter (of_type "USER") ns)
      → ad_or g host us o ≡ map (ad_access g host) (filter (of_type "USER") (node_or ns o))
  ad-or_nodes none us ns e = e
  ad-or_nodes (some n) us ns e = elim (Bool-cases (of_type "USER" n)) [
    | inl k ↦ rw k (ap (◌∷◌ (ad_access g host n)) e)
    | inr k ↦ rw k e
  ]

  ad_users_at-nodes :
      (ls : List GraphLink)
      → ad_users_at g host ls ≡ map (ad_access g host) (filter (of_type "USER") (nodes_at g ls))
  unfolding ad_users_at
  ad_users_at-nodes [] = refl
  ad_users_at-nodes (l ∷ ls) =
      ad-or_nodes (get_node_by_id g (end_id l.source)) (ad_users_at g host ls) (nodes_at g ls)
        (ad_users_at-nodes ls)

  ipa-or_nodes :
      (o : Option GraphNode) (us : List LinuxUserAccess) (ns : List GraphNode)
      → us ≡ map (ipa_access g host) ns
      → ipa_or g host us o ≡ map (ipa_access g host) (node_or ns o)
  ipa-or_nodes none us ns e = e
  ipa-or_nodes (some n) us ns e = ap (◌∷◌ (ipa_access g host n)) e

  ipa_users_at-nodes :
      (ls : List GraphLink) → ipa_users_at g host ls ≡ map (ipa_access g host) (nodes_at g ls)
  unfolding ipa_users_at
  ipa_users_at-nodes [] = refl
  ipa_users_at-nodes (l ∷ ls) =
      ipa-or_nodes (get_node_by_id g (end_id l.source)) (ipa_users_at g host ls) (nodes_at g ls)
        (ipa_users_at-nodes ls)

  linux_users-rights :
      map rights_of (map (linux_entry host) (linux_access g host).users)
      ≡ map (linux_rights g host) (filter (of_type "LINUX_USER") g.nodes)
  unfolding linux_access
  linux_users-rights =
      map-map_ext rights_of (linux_entry host) (λ u. rights_of (linux_entry host u)) (λ u. refl) _
      ∙ map-map_ext (λ u. rights_of (linux_entry host u)) _ (linux_rights g host)
          (λ n. linux-rights (find_sudo_policies_for_host g host) _ n refl)
          (filter (of_type "LINUX_USER") g.nodes)

  ad-rights :
      map rights_of (map ad_entry (get_ad_users_for_host (push_memberships g) host))
      ≡ map (ad_rights g host) (filter (of_type "USER") (logins g "ACTIVE_DIRECTORY" host))
  unfolding ad_entry ad_access get_ad_users_for_host
  ad-rights =
      map-map_ext rights_of ad_entry (λ u. rights_of (ad_entry u)) (λ u. refl) _
      ∙ (ap (map (λ u. rights_of (ad_entry u))) (ad-pushed g host ∙ ad_users_at-nodes _)
          ∙ map-map_ext (λ u. rights_of (ad_entry u)) (ad_access g host) (ad_rights g host)
              (λ n. refl) _)

  ipa-rights :
      map rights_of (map ipa_entry (get_free_ipa_users_for_host (push_memberships g) host))
      ≡ map (ipa_rights g host) (logins g "FREE_IPA" host)
  unfolding ipa_entry ipa_access get_free_ipa_users_for_host
  ipa-rights =
      map-map_ext rights_of ipa_entry (λ u. rights_of (ipa_entry u)) (λ u. refl) _
      ∙ (ap (map (λ u. rights_of (ipa_entry u))) (ipa-pushed g host ∙ ipa_users_at-nodes _)
          ∙ map-map_ext (λ u. rights_of (ipa_entry u)) (ipa_access g host) (ipa_rights g host)
              (λ n. refl) _)

  -- computeEffectiveAccess reports, in this order, every Linux user, every user that Active Directory
  -- lets in and every account that FreeIPA lets in. A Linux user's sudo is direct if and only if some
  -- policy on the host grants a group that the user is in, by its own property or by a link; its key
  -- is direct with sudo and inherited without. Of the directories' accounts ssh is direct, and sudo
  -- is direct only for the users of Active Directory that a Linux user is mapped to.
  pub compute_effective_access-rights :
      map rights_of (compute_effective_access g host).0
      ≡ map (linux_rights g host) (filter (of_type "LINUX_USER") g.nodes)
        ++ (map (ad_rights g host) (filter (of_type "USER") (logins g "ACTIVE_DIRECTORY" host))
            ++ map (ipa_rights g host) (logins g "FREE_IPA" host))
  unfolding compute_effective_access get_linux_users_for_host
  compute_effective_access-rights =
      map-append rights_of _ _
      ∙ ap₂ (λ a b. a ++ b) linux_users-rights
          (map-append rights_of _ _ ∙ ap₂ (λ a b. a ++ b) ad-rights ipa-rights)
