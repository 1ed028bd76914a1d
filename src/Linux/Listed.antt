-- ===== src/Linux/Listed.antt =====
-- What `computeDependencies` (apps/frontend/src/services/linuxGraphAdapter.ts) lists: the ids
-- that its loops come by, each once.
use identity_access_graph.Prelude.{
  String, Bool, true, false, List, [], ◌∷◌, ◌++◌, Option, none, some, ◌≡◌, refl, sym, ap, ◌∙◌,
  Bool-cases, inl, inr, ◌||◌, ||_assoc, ||_comm, ||_false, filter, map, map-append, any, any-append,
  includes, ◌==◌, ==_ne, string_eq, subst, arith,
}
use identity_access_graph.Linux.Graph.{GraphData, GraphNode, get_node_by_id}
use identity_access_graph.Linux.Policies.{SudoPolicyAccess, find_sudo_policies_for_host}
use identity_access_graph.Linux.Users.{LinuxUserAccess, member_sources}
use identity_access_graph.Linux.Directory.{
  is_database, get_ad_users_for_host, get_business_services_for_host, get_applications_for_host,
}
use identity_access_graph.Linux.Depends.{
  Flow, upstream, downstream, DependencyNode, Dependencies, nothing_found, add_dependency,
  dependency, add_nodes, add_node, add_ad_users, keys_of, add_members, add_groups, add_policies,
  named, is_neighbour, found_dependencies, compute_dependencies,
}

abbrev pub among : List GraphNode → String → Bool
among ns i = any (λ (n : GraphNode). n.id == i) ns

abbrev pub is_node : Option GraphNode → String → Bool
is_node none i = false
is_node (some n) i = n.id == i

module _ (g : GraphData) where
  -- The member, or one of the keys the code takes for the member's.
  abbrev pub by_member : String → String → Bool
  by_member m i = is_node (get_node_by_id g m) i || among (keys_of g (get_node_by_id g m)) i

  abbrev pub by_group : String → String → Bool
  by_group h i =
      is_node (get_node_by_id g h) i || any (λ m. by_member m i) (member_sources g.links h)

  abbrev pub by_policies : List SudoPolicyAccess → String → Bool
  by_policies ps i = any (λ (p : SudoPolicyAccess). any (λ h. by_group h i) p.group_ids) ps

  -- What the loops come by, as the code selects it.
  abbrev pub is_listed : String → String → Bool
  is_listed host i =
      by_policies (find_sudo_policies_for_host g host) i
      || (any (λ (u : LinuxUserAccess). u.id == i) (get_ad_users_for_host g host)
          || (among (filter (is_database g host) g.nodes) i
              || (among (named g (get_business_services_for_host g host)) i
                  || (among (named g (get_applications_for_host g host)) i
                      || among (filter (is_neighbour g host) g.nodes) i))))

abbrev pub IsDistinct : List String → Type 0
IsDistinct [] = Unit
IsDistinct (i ∷ is) = (includes is i ≡ false) × IsDistinct is

abbrev pub ids_of : List DependencyNode → List String
ids_of = map (λ (d : DependencyNode). d.id)

IsDistinct-concat :
    (is : List String) (i : String)
    → IsDistinct is
    → includes is i ≡ false
    → IsDistinct (is ++ i ∷ [])
IsDistinct-concat [] i d e = (refl, tt)
IsDistinct-concat (k ∷ is) i (p, d) e =
    let ne : (k == i) ≡ false = ground (arith, e) in
    let e' : includes is i ≡ false = ground (arith, e) in
    let sym_ne : (i == k) ≡ false =
      ==_ne i k (λ same. cc (sym ((string_eq.test_iff k i).1 (sym same)) ∙ ne)) in
    (any-append (λ x. x == k) is (i ∷ []) ∙ rw (p, sym_ne) refl, IsDistinct-concat is i d e')

-- The set `seen` holds the ids of `result`, which are distinct.
abbrev pub IsSound : Dependencies → Type 0
IsSound s =
    IsDistinct (ids_of s.result) × ((i : String) → includes s.seen i ≡ includes (ids_of s.result) i)

-- From one state to the next the ids of the test are added, and no others.
record Grows (s t : Dependencies) (q : String → Bool) : Type 0 where
  sound : IsSound s → IsSound t
  adds : (i : String) → includes t.seen i ≡ (includes s.seen i || q i)

Grows-refl : (s : Dependencies) → Grows s s (λ _. false)
Grows-refl s = record { sound = λ h. h; adds = λ i. ground arith }

Grows-trans :
    {s t u : Dependencies} {p q : String → Bool}
    → Grows s t p
    → Grows t u q
    → Grows s u (λ i. p i || q i)
Grows-trans {s} {t} {u} {p} {q} h k = record {
  sound = λ x. k.sound (h.sound x);
  adds = λ i. k.adds i ∙ (ap (λ b. b || q i) (h.adds i) ∙ ||_assoc (includes s.seen i) (p i) (q i));
}

old-dependency :
    (is : List String) (k i : String)
    → includes is k ≡ true
    → includes is i ≡ (includes is i || (k == i))
old-dependency is k i e = elim (Bool-cases (k == i)) [
  | inl f ↦
      let e' : includes is i ≡ true =
        subst (λ j. includes is j ≡ true) ((string_eq.test_iff k i).0 f) e in
      rw (f, e') refl
  | inr f ↦ rw f (ground arith)
]

new-dependency :
    (s : Dependencies) (d : DependencyNode)
    → includes s.seen d.id ≡ false
    → IsSound s
    → IsSound (record { seen = d.id ∷ s.seen; result = s.result ++ d ∷ [] })
new-dependency s d e (distinct, same) =
    let ids : ids_of (s.result ++ d ∷ []) ≡ ids_of s.result ++ d.id ∷ [] =
      map-append (λ (d : DependencyNode). d.id) s.result (d ∷ []) in
    (
      subst IsDistinct (sym ids)
          (IsDistinct-concat (ids_of s.result) d.id distinct (sym (same d.id) ∙ e)),
      λ i.
          ap (λ b. (d.id == i) || b) (same i)
          ∙ (||_comm (d.id == i) (includes (ids_of s.result) i)
              ∙ (sym (
                    any-append (λ x. x == i) (ids_of s.result) (d.id ∷ [])
                    ∙ ap (λ b. includes (ids_of s.result) i || b) (||_false (d.id == i)))
                  ∙ ap (λ is. includes is i) (sym ids))),
    )

Grows-dependency :
    (s : Dependencies) (d : DependencyNode) → Grows s (add_dependency s d) (λ i. d.id == i)
unfolding add_dependency
Grows-dependency s d = elim (Bool-cases (includes s.seen d.id)) [
  | inl e ↦ rw e (record { sound = λ h. h; adds = λ i. old-dependency s.seen d.id i e })
  | inr e ↦
      rw e (record {
        sound = new-dependency s d e;
        adds = λ i. ||_comm (d.id == i) (includes s.seen i);
      })
]

Grows-nodes :
    (side : Flow) (ns : List GraphNode) (s : Dependencies)
    → Grows s (add_nodes side s ns) (among ns)
unfolding add_nodes
Grows-nodes side [] s = Grows-refl s
Grows-nodes side (n ∷ ns) s =
    Grows-trans (Grows-dependency s (dependency side n)) (Grows-nodes side ns _)

Grows-node : (o : Option GraphNode) (s : Dependencies) → Grows s (add_node s o) (is_node o)
unfolding add_node
Grows-node none s = Grows-refl s
Grows-node (some n) s = Grows-dependency s (dependency upstream n)

Grows-ad_users :
    (us : List LinuxUserAccess) (s : Dependencies)
    → Grows s (add_ad_users s us) (λ i. any (λ (u : LinuxUserAccess). u.id == i) us)
unfolding add_ad_users
Grows-ad_users [] s = Grows-refl s
Grows-ad_users (u ∷ us) s = Grows-trans (Grows-dependency s _) (Grows-ad_users us _)

module _ (g : GraphData) where
  Grows-members :
      (ms : List String) (s : Dependencies)
      → Grows s (add_members g s ms) (λ i. any (λ m. by_member g m i) ms)
  unfolding add_members
  Grows-members [] s = Grows-refl s
  Grows-members (m ∷ ms) s =
      Grows-trans
        (Grows-trans (Grows-node (get_node_by_id g m) s)
          (Grows-nodes upstream (keys_of g (get_node_by_id g m)) _))
        (Grows-members ms _)

  Grows-groups :
      (hs : List String) (s : Dependencies)
      → Grows s (add_groups g s hs) (λ i. any (λ h. by_group g h i) hs)
  unfolding add_groups
  Grows-groups [] s = Grows-refl s
  Grows-groups (h ∷ hs) s =
      Grows-trans
        (Grows-trans (Grows-node (get_node_by_id g h) s)
          (Grows-members (member_sources g.links h) _))
        (Grows-groups hs _)

  Grows-policies :
      (ps : List SudoPolicyAccess) (s : Dependencies)
      → Grows s (add_policies g s ps) (by_policies g ps)
  unfolding add_policies
  Grows-policies [] s = Grows-refl s
  Grows-policies (p ∷ ps) s = Grows-trans (Grows-groups p.group_ids s) (Grows-policies ps _)

  Grows-found : (host : String) → Grows nothing_found (found_dependencies g host) (is_listed g host)
  unfolding found_dependencies
  Grows-found host =
      Grows-trans (Grows-policies (find_sudo_policies_for_host g host) nothing_found) (
        Grows-trans (Grows-ad_users (get_ad_users_for_host g host) _) (
          Grows-trans (Grows-nodes downstream (filter (is_database g host) g.nodes) _) (
            Grows-trans (Grows-nodes downstream (named g (get_business_services_for_host g host)) _)
              (Grows-trans (Grows-nodes downstream (named g (get_applications_for_host g host)) _)
                (Grows-nodes downstream (filter (is_neighbour g host) g.nodes) _)))))

  pub compute_dependencies-ids :
      (host : String)
      → IsDistinct (ids_of (compute_dependencies g host))
        × ((i : String) → includes (ids_of (compute_dependencies g host)) i ≡ is_listed g host i)
  unfolding compute_dependencies
  compute_dependencies-ids host =
      let r = Grows-found host in
      let sound = r.sound (tt, λ i. refl) in (sound.0, λ i. sym (sound.1 i) ∙ r.adds i)
