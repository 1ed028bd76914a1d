-- ===== src/Linux/Dependency.antt =====
-- What `computeDependencies` (apps/frontend/src/services/linuxGraphAdapter.ts) lists is what the
-- description by nodes and links says.
use identity_access_graph.Prelude.{
  String, Bool, false, List, [], ◌∷◌, Option, none, some, ◌≡◌, refl, sym, ap, ap₂, subst, ◌∙◌,
  Bool-cases, inl, inr, ◌==◌, string_eq, ◌&&◌, ◌||◌, ||_assoc, ||_false, any, any-ext, any-map,
  any-filter, any-with_missing, includes, find, filter, if◌then◌else◌, arith,
}
use identity_access_graph.Linux.Graph.{
  GraphData, GraphNode, GraphLink, get_node_by_id, of_type, of_relation, or_value, is_text, is_id,
  end_id,
}
use identity_access_graph.Linux.Policies.{find_sudo_policies_for_host, sudo_policy_access}
use identity_access_graph.Linux.Users.{LinuxUserAccess}
use identity_access_graph.Linux.Directory.{
  authenticates, is_database, ad_or, ad_access, ad_users_at, get_ad_users_for_host, database_links,
  push_application, push_service, applications_of, get_applications_for_host, services_of,
  services_of_links, get_business_services_for_host,
}
use identity_access_graph.Linux.Depends.{is_owned, named, is_neighbour, compute_dependencies}
use identity_access_graph.Linux.Granted.{granted, any-policies}
use identity_access_graph.Linux.Listed.{
  among, is_node, by_member, by_group, by_policies, is_listed, IsDistinct, ids_of,
  compute_dependencies-ids,
}
use identity_access_graph.Linux.Needed.{
  is_missing, is_typed, has_name, has_typed_name, is_present, is_key_of, through_member,
  through_group, through_policy, through_login, connects, is_application, is_service, is_dependency,
}

other-present :
    (k m i : String) (b : Bool) → (k == m) ≡ false → ((m == i) && b) ≡ ((m == i) && ((k == i) || b))
other-present k m i b e = elim (Bool-cases (m == i)) [
  | inl f ↦
      let p : m ≡ i = (string_eq.test_iff m i).0 f in
      let q : (k == i) ≡ false = subst (λ x. (k == x) ≡ false) p e in rw (f, q) refl
  | inr f ↦ rw f refl
]

-- The node that a look-up finds has the id.
found-present :
    (ns : List GraphNode) (m i : String)
    → is_node (find (λ n. n.id == m) ns) i ≡ ((m == i) && any (λ (n : GraphNode). n.id == i) ns)
found-present [] m i = ground arith
found-present (n ∷ ns) m i = elim (Bool-cases (n.id == m)) [
  | inl e ↦
      let p : n.id ≡ m = (string_eq.test_iff n.id m).0 e in
      let q : (n.id == i) ≡ (m == i) = ap (λ k. k == i) p in rw e (ground (arith, q))
  | inr e ↦
      rw e (found-present ns m i ∙ other-present n.id m i (any (λ (n : GraphNode). n.id == i) ns) e)
]

owned-key :
    (o : Option String) (ns : List GraphNode) (m : String)
    → is_owned o (find (λ n. n.id == m) ns)
      ≡ (if any (λ (n : GraphNode). n.id == m) ns then is_text o m else is_missing o)
owned-key none [] m = refl
owned-key (some k) [] m = refl
owned-key o (n ∷ ns) m = elim (Bool-cases (n.id == m)) [
  | inl e ↦ rw e (owned o n ((string_eq.test_iff n.id m).0 e))
  | inr e ↦ rw e (owned-key o ns m)
]
  where
    owned : (o : Option String) (n : GraphNode) → n.id ≡ m → is_owned o (some n) ≡ is_text o m
    owned none n p = refl
    owned (some k) n p = ap (λ i. k == i) p

module _ (g : GraphData) where
  present : (m i : String) → is_node (get_node_by_id g m) i ≡ is_present g m i
  unfolding get_node_by_id
  present m i = found-present g.nodes m i

  owned-is_key_of :
      (m : String) (k : GraphNode)
      → (of_type "SSH_KEY" k && is_owned k.properties.owner_id (get_node_by_id g m))
        ≡ is_key_of g m k
  unfolding get_node_by_id
  owned-is_key_of m k =
      ap (λ b. of_type "SSH_KEY" k && b) (owned-key k.properties.owner_id g.nodes m)

  member-through : (m i : String) → by_member g m i ≡ through_member g m i
  member-through m i =
      ap₂ (λ a b. a || b) (present m i)
        (any-filter (λ (n : GraphNode). n.id == i) _ g.nodes
          ∙ any-ext _ _ (λ k. ap (λ b. b && (k.id == i)) (owned-is_key_of m k)) g.nodes)

  group-through : (h i : String) → by_group g h i ≡ through_group g h i
  group-through h i =
      ap₂ (λ a b. a || b) (present h i)
        (any-map (λ m. by_member g m i) (λ (l : GraphLink). end_id l.source) _
          ∙ (any-filter _ _ g.links
              ∙ any-ext _ _
                  (λ l.
                    ap (λ b. (of_relation "MEMBER_OF" l && is_id l.target h) && b)
                      (member-through (end_id l.source) i))
                  g.links))

  policies-through :
      (host i : String)
      → by_policies g (find_sudo_policies_for_host g host) i ≡ through_policy g host i
  unfolding find_sudo_policies_for_host sudo_policy_access
  policies-through host i =
      any-policies g host (λ p. any (λ h. by_group g h i) p.group_ids)
        (filter (of_type "SUDO_POLICY") g.nodes)
      ∙ (any-filter _ (of_type "SUDO_POLICY") g.nodes
          ∙ any-ext _ _
              (λ p.
                ap
                  (λ b.
                    of_type "SUDO_POLICY" p
                    && (includes (or_value p.properties.host_ids []) host && b))
                  (any-ext _ _ (λ h. group-through h i) (granted g p)))
              g.nodes)

  typed-or :
      (host i : String) (rest : List LinuxUserAccess) (o : Option GraphNode)
      → any (λ (u : LinuxUserAccess). u.id == i) (ad_or g host rest o)
        ≡ (is_typed "USER" o i || any (λ (u : LinuxUserAccess). u.id == i) rest)
  unfolding ad_access
  typed-or host i rest none = refl
  typed-or host i rest (some n) = elim (Bool-cases (of_type "USER" n)) [
    | inl e ↦ rw e refl
    | inr e ↦ rw e refl
  ]

  users-typed :
      (host i : String) (ls : List GraphLink)
      → any (λ (u : LinuxUserAccess). u.id == i) (ad_users_at g host ls)
        ≡ any (λ (l : GraphLink). is_typed "USER" (get_node_by_id g (end_id l.source)) i) ls
  unfolding ad_users_at
  users-typed host i [] = refl
  users-typed host i (l ∷ ls) =
      typed-or host i (ad_users_at g host ls) (get_node_by_id g (end_id l.source))
      ∙ ap (λ b. is_typed "USER" (get_node_by_id g (end_id l.source)) i || b)
          (users-typed host i ls)

  logins-through :
      (host i : String)
      → any (λ (u : LinuxUserAccess). u.id == i) (get_ad_users_for_host g host)
        ≡ through_login g host i
  unfolding get_ad_users_for_host
  logins-through host i =
      users-typed host i _ ∙ any-filter _ (authenticates "ACTIVE_DIRECTORY" host) g.links

  abbrev app_named : String → GraphLink → Bool
  app_named x l = has_typed_name "APPLICATION" (get_node_by_id g (end_id l.source)) x

  abbrev target_named : String → GraphLink → Bool
  target_named x k = has_name (get_node_by_id g (end_id k.target)) x

  application-pushed :
      (names : List String) (o : Option GraphNode) (x : String)
      → includes (push_application names o) x
        ≡ (includes names x || has_typed_name "APPLICATION" o x)
  application-pushed names none x = sym (||_false (includes names x))
  application-pushed names (some n) x = elim (Bool-cases (of_type "APPLICATION" n)) [
    | inl e ↦ rw e (any-with_missing (λ k. k == x) names n.display_name)
    | inr e ↦ rw e (sym (||_false (includes names x)))
  ]

  service-pushed :
      (names : List String) (o : Option GraphNode) (x : String)
      → includes (push_service names o) x ≡ (includes names x || has_name o x)
  service-pushed names none x = sym (||_false (includes names x))
  service-pushed names (some n) x = any-with_missing (λ k. k == x) names n.display_name

  applications-typed :
      (host : String) (ls : List GraphLink) (names : List String) (x : String)
      → includes (applications_of g host ls names) x ≡ (
          includes names x
          || any
              (λ (l : GraphLink).
                has_typed_name "APPLICATION" (get_node_by_id g (end_id l.source)) x)
              ls)
  unfolding applications_of
  applications-typed host [] names x = sym (||_false (includes names x))
  applications-typed host (l ∷ ls) names x =
      let o = get_node_by_id g (end_id l.source) in
      applications-typed host ls (push_application names o) x
      ∙ (ap (λ b. b || any (app_named x) ls) (application-pushed names o x)
          ∙ ||_assoc (includes names x) (has_typed_name "APPLICATION" o x) (any (app_named x) ls))

  services-named :
      (host : String) (ls : List GraphLink) (names : List String) (x : String)
      → includes (services_of g host ls names) x ≡ (
          includes names x
          || any (λ (k : GraphLink). has_name (get_node_by_id g (end_id k.target)) x) ls)
  unfolding services_of
  services-named host [] names x = sym (||_false (includes names x))
  services-named host (l ∷ ls) names x =
      let o = get_node_by_id g (end_id l.target) in
      services-named host ls (push_service names o) x
      ∙ (ap (λ b. b || any (target_named x) ls) (service-pushed names o x)
          ∙ ||_assoc (includes names x) (has_name o x) (any (target_named x) ls))

  -- The name of something that the source of the link is part of.
  abbrev part_named : String → GraphLink → Bool
  part_named x l =
      any
        (λ (k : GraphLink).
          (k.relationship_type == "PART_OF" && is_id k.source (end_id l.source))
          && has_name (get_node_by_id g (end_id k.target)) x)
        g.links

  services_of_links-named :
      (host : String) (ls : List GraphLink) (names : List String) (x : String)
      → includes (services_of_links g host ls names) x ≡ (includes names x || any (part_named x) ls)
  unfolding services_of_links
  services_of_links-named host [] names x = sym (||_false (includes names x))
  services_of_links-named host (l ∷ ls) names x =
      services_of_links-named host ls _ x
      ∙ (ap (λ b. b || any (part_named x) ls)
            (services-named host _ names x
              ∙ ap (λ b. includes names x || b) (any-filter _ _ g.links))
          ∙ ||_assoc (includes names x) (part_named x l) (any (part_named x) ls))

  links-connect :
      (host : String) (q : GraphLink → Bool)
      → any q (database_links g host) ≡ any (λ l. connects g host l && q l) g.links
  unfolding database_links
  links-connect host q =
      any-filter q _ g.links
      ∙ any-ext _ _
          (λ l.
            ap (λ b. (of_relation "CONNECTS_TO" l && b) && q l)
              (any-filter (λ (n : GraphNode). is_id l.target n.id) (is_database g host) g.nodes))
          g.links

  among-named :
      (names : List String) (q : String → Bool) (i : String)
      → ((x : String) → includes names x ≡ q x)
      → among (named g names) i ≡ any (λ (n : GraphNode). q n.display_name && n.id == i) g.nodes
  among-named names q i h =
      any-filter _ _ g.nodes
      ∙ any-ext _ _ (λ n. ap (λ b. b && (n.id == i)) (h n.display_name)) g.nodes

  is_listed-is_dependency : (host i : String) → is_listed g host i ≡ is_dependency g host i
  unfolding get_applications_for_host get_business_services_for_host
  is_listed-is_dependency host i =
      ap₂ (λ a b. a || b) (policies-through host i)
        (ap₂ (λ a b. a || b) (logins-through host i)
          (ap₂ (λ a b. a || b) (any-filter _ (is_database g host) g.nodes)
            (ap₂ (λ a b. a || b)
              (among-named _ (is_service g host) i (λ x.
                services_of_links-named host (database_links g host) [] x
                ∙ links-connect host (part_named x)))
              (ap₂ (λ a b. a || b)
                (among-named _ (is_application g host) i (λ x.
                  applications-typed host (database_links g host) [] x
                  ∙ links-connect host (app_named x)))
                (any-filter _ (is_neighbour g host) g.nodes)))))

  -- computeDependencies lists each id once, and lists an id if and only if, by the nodes and links of
  -- the graph alone, it is that of: a group that a sudo policy on the host grants, a source of a
  -- MEMBER_OF link to such a group, or a key of such a source (a key with no owner, where the source is
  -- no node); a user that Active Directory lets in; a database of the host; what has the name of an
  -- application that connects to such a database, or of what the source of such a connection is part
  -- of; or another host of both the same site and the same environment.
  pub compute_dependencies-lists :
      (host : String)
      → IsDistinct (ids_of (compute_dependencies g host))
        × ((i : String)
            → includes (ids_of (compute_dependencies g host)) i ≡ is_dependency g host i)
  compute_dependencies-lists host =
      let r = compute_dependencies-ids g host in (r.0, λ i. r.1 i ∙ is_listed-is_dependency host i)
