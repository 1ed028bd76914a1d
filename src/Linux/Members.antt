-- ===== src/Linux/Members.antt =====
-- The arrays `memberIds` and `groupIds` under the pushes of `getLinuxUsersForHost`
-- (apps/frontend/src/services/linuxGraphAdapter.ts): a second call pushes nothing.
use identity_access_graph.Prelude.{
  push_missing, push_missing_twice, String, List, [], Option, none, some, ◌≡◌, refl, ap, ◌∙◌,
  string_eq, Bool-cases, inl, inr, map-map_same,
}
use identity_access_graph.Linux.Graph.{GraphData, GraphNode, GraphLink, of_type, or_value}
use identity_access_graph.Linux.Users.{
  pushed_node, pushed_members, pushed_groups, push_memberships, kept_array, member_sources,
  member_targets,
}

-- The array as the code reads it, and then as it is kept_array in the node.
or_value-kept_array :
    (o : Option (List String)) (is : List String)
    → push_missing (or_value (kept_array o (push_missing (or_value o []) is)) []) is
      ≡ push_missing (or_value o []) is
or_value-kept_array none is = refl
or_value-kept_array (some ids) is = push_missing_twice ids is

kept_twice :
    (o : Option (List String)) (is : List String)
    → kept_array
        (kept_array o (push_missing (or_value o []) is))
        (push_missing (or_value (kept_array o (push_missing (or_value o []) is)) []) is)
      ≡ kept_array o (push_missing (or_value o []) is)
kept_twice none is = refl
kept_twice (some ids) is = ap some (push_missing_twice ids is)

module _ (ls : List GraphLink) (n : GraphNode) where
  pub members-pushed : pushed_members ls (pushed_node ls n) ≡ pushed_members ls n
  members-pushed = elim (Bool-cases (of_type "LINUX_GROUP" n)) [
    | inl e ↦ rw e (or_value-kept_array n.properties.member_ids (member_sources ls n.id))
    | inr e ↦ rw e refl
  ]

  pub groups-pushed : pushed_groups ls (pushed_node ls n) ≡ pushed_groups ls n
  groups-pushed = elim (Bool-cases (of_type "LINUX_USER" n)) [
    | inl e ↦ rw e (or_value-kept_array n.properties.group_ids (member_targets ls n.id))
    | inr e ↦ rw e refl
  ]

  member_ids-twice :
      (pushed_node ls (pushed_node ls n)).properties.member_ids
      ≡ (pushed_node ls n).properties.member_ids
  member_ids-twice = elim (Bool-cases (of_type "LINUX_GROUP" n)) [
    | inl e ↦ rw e (kept_twice n.properties.member_ids (member_sources ls n.id))
    | inr e ↦ rw e refl
  ]

  group_ids-twice :
      (pushed_node ls (pushed_node ls n)).properties.group_ids
      ≡ (pushed_node ls n).properties.group_ids
  group_ids-twice = elim (Bool-cases (of_type "LINUX_USER" n)) [
    | inl e ↦ rw e (kept_twice n.properties.group_ids (member_targets ls n.id))
    | inr e ↦ rw e refl
  ]

  pushed_node_twice : pushed_node ls (pushed_node ls n) ≡ pushed_node ls n
  pushed_node_twice =
      ap
        (λ ms. record n {
          properties = record n.properties {
            member_ids = ms;
            group_ids = (pushed_node ls (pushed_node ls n)).properties.group_ids;
          };
        })
        member_ids-twice
      ∙ ap
          (λ gs. record n {
            properties = record n.properties {
              member_ids = (pushed_node ls n).properties.member_ids;
              group_ids = gs;
            };
          })
          group_ids-twice

-- A graph that was pushed to is left as it is.
pub push_memberships_twice :
    (g : GraphData) → push_memberships (push_memberships g) ≡ push_memberships g
unfolding push_memberships
push_memberships_twice g =
    ap (λ ns. record g { nodes = ns })
      (map-map_same (pushed_node g.links) (pushed_node g.links) (pushed_node_twice g.links) g.nodes)
