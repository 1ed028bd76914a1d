-- ===== src/Linux/Pushed.antt =====
-- What the pushes of `getLinuxUsersForHost` (apps/frontend/src/services/linuxGraphAdapter.ts) leave
-- as it was: the look-ups and the hosts.
use identity_access_graph.Prelude.{
  String, List, [], ◌∷◌, Option, none, some, ◌≡◌, refl, ap, ◌==◌, string_eq, map_some,
  map_some_same, filter-ext, find-map_same, ◌∙◌,
}
use identity_access_graph.Linux.Graph.{
  GraphData, GraphNode, get_node_by_id, find_linked_node_ids, at_target,
}
use identity_access_graph.Linux.Host.{
  os_type_of, os_name_of, display_name_or, node_of_type, subnet_or, os_type_at, os_name_at, site_at,
  subnet_at, any_subnet, is_subnet, get_host_os_type, get_host_os_name, get_host_site,
  get_host_subnet, get_host_summary, environment_of,
}
use identity_access_graph.Linux.Users.{pushed_node, push_memberships}

module _ (g : GraphData) where
  -- A look-up finds the node as the pushes left it.
  pub get_node_by_id-pushed :
      (i : String)
      → get_node_by_id (push_memberships g) i ≡ map_some (pushed_node g.links) (get_node_by_id g i)
  unfolding get_node_by_id push_memberships
  get_node_by_id-pushed i = find-map_same (pushed_node g.links) (λ n. n.id == i) (λ n. refl) g.nodes

  -- What is made of a node that was looked up, before the pushes and after.
  pub looked_up_both {ℓ} :
      {A : Type ℓ} (f f' : Option GraphNode → A)
      → f none ≡ f' none
      → ((n : GraphNode) → f (some (pushed_node g.links n)) ≡ f' (some n))
      → (i : String) → f (get_node_by_id (push_memberships g) i) ≡ f' (get_node_by_id g i)
  looked_up_both f f' e h i =
      ap f (get_node_by_id-pushed i) ∙ map_some_same (pushed_node g.links) f f' e h _

  pub looked_up {ℓ} :
      {A : Type ℓ} (f : Option GraphNode → A)
      → ((n : GraphNode) → f (some (pushed_node g.links n)) ≡ f (some n))
      → (i : String) → f (get_node_by_id (push_memberships g) i) ≡ f (get_node_by_id g i)
  looked_up f h i = looked_up_both f f refl h i

  pub find_linked-pushed :
      (i r : String)
      → find_linked_node_ids (push_memberships g) i r at_target
        ≡ find_linked_node_ids g i r at_target
  unfolding find_linked_node_ids push_memberships
  find_linked-pushed i r = refl

  os_type_at-pushed : (is : List String) → os_type_at (push_memberships g) is ≡ os_type_at g is
  unfolding os_type_at
  os_type_at-pushed [] = refl
  os_type_at-pushed (i ∷ is) = looked_up os_type_of (λ n. refl) i

  os_name_at-pushed : (is : List String) → os_name_at (push_memberships g) is ≡ os_name_at g is
  unfolding os_name_at
  os_name_at-pushed [] = refl
  os_name_at-pushed (i ∷ is) = looked_up os_name_of (λ n. refl) i

  display_name-pushed :
      (i d : String)
      → display_name_or (get_node_by_id (push_memberships g) i) d
        ≡ display_name_or (get_node_by_id g i) d
  display_name-pushed i d = looked_up (λ o. display_name_or o d) (λ n. refl) i

  site_at-pushed : (is : List String) → site_at (push_memberships g) is ≡ site_at g is
  unfolding site_at
  site_at-pushed [] = refl
  site_at-pushed (i ∷ is) = display_name-pushed i i

  is_subnet-pushed : (i : String) → is_subnet (push_memberships g) i ≡ is_subnet g i
  is_subnet-pushed = looked_up (node_of_type "SUBNET") (λ n. refl)

  any_subnet-pushed : (is : List String) → any_subnet (push_memberships g) is ≡ any_subnet g is
  unfolding any_subnet
  any_subnet-pushed [] = refl
  any_subnet-pushed (i ∷ is) =
      ap (λ r. subnet_or r (get_node_by_id (push_memberships g) i)) (any_subnet-pushed is)
      ∙ looked_up (subnet_or (any_subnet g is)) (λ n. refl) i

  subnet_at-pushed :
      (ts ss : List String) → subnet_at (push_memberships g) ts ss ≡ subnet_at g ts ss
  unfolding subnet_at
  subnet_at-pushed ts [] = any_subnet-pushed ts
  subnet_at-pushed ts (s ∷ ss) = display_name-pushed s s

  os_type-pushed : (i : String) → get_host_os_type (push_memberships g) i ≡ get_host_os_type g i
  unfolding get_host_os_type
  os_type-pushed i =
      ap (os_type_at (push_memberships g)) (find_linked-pushed i "RUNS_ON") ∙ os_type_at-pushed _

  os_name-pushed : (i : String) → get_host_os_name (push_memberships g) i ≡ get_host_os_name g i
  unfolding get_host_os_name
  os_name-pushed i =
      ap (os_name_at (push_memberships g)) (find_linked-pushed i "RUNS_ON") ∙ os_name_at-pushed _

  pub site-pushed : (i : String) → get_host_site (push_memberships g) i ≡ get_host_site g i
  unfolding get_host_site
  site-pushed i =
      ap (site_at (push_memberships g)) (find_linked-pushed i "LOCATED_IN") ∙ site_at-pushed _

  subnet-pushed : (i : String) → get_host_subnet (push_memberships g) i ≡ get_host_subnet g i
  unfolding get_host_subnet
  subnet-pushed i = rw (find_linked-pushed i "LOCATED_IN") (
      ap (subnet_at (push_memberships g) (find_linked_node_ids g i "LOCATED_IN" at_target))
        (filter-ext (is_subnet (push_memberships g)) (is_subnet g) is_subnet-pushed _)
      ∙ subnet_at-pushed _ _)

  -- The row of a host is the same before and after the pushes.
  pub summary-pushed :
      (n : GraphNode) → get_host_summary (push_memberships g) n ≡ get_host_summary g n
  unfolding get_host_summary
  summary-pushed n =
      rw (os_type-pushed n.id, os_name-pushed n.id, site-pushed n.id, subnet-pushed n.id) refl

  pub summary-pushed_node :
      (n : GraphNode) → get_host_summary g (pushed_node g.links n) ≡ get_host_summary g n
  unfolding get_host_summary environment_of
  summary-pushed_node n = refl
