-- ===== src/Linux/Ageless.antt =====
-- The detail of a host (apps/frontend/src/services/linuxGraphAdapter.ts) but for what depends on the
-- moment it is read: whether a key counts as unused.
use identity_access_graph.Prelude.{
  String, false, List, [], ◌∷◌, ◌++◌, Option, none, some, ◌≡◌, refl, ap, ap₂, ◌∙◌, Bool-cases, inl,
  inr, map, map-append, map-map_ext, map_some, sym,
}
use identity_access_graph.Linux.Graph.{GraphData, GraphNode, get_node_by_id}
use identity_access_graph.Linux.Policies.{
  Clock, SshKeyAccess, ssh_key_access, find_ssh_keys_for_user,
}
use identity_access_graph.Linux.Users.{LinuxUserAccess, linux_access}
use identity_access_graph.Linux.Detail.{LinuxHostDetail, keys_of_users, is_host}
use identity_access_graph.Linux.Pure.{pure_detail, pure_detail_of, detail_in}

abbrev pub ageless_key : SshKeyAccess → SshKeyAccess
ageless_key k = record k { unused = false }

abbrev pub ageless : LinuxHostDetail → LinuxHostDetail
ageless d = record d { ssh_keys = map ageless_key d.ssh_keys }

module _ (c d : Clock) (g : GraphData) where
  found_keys-ageless :
      (user : String)
      → map ageless_key (find_ssh_keys_for_user c g user)
        ≡ map ageless_key (find_ssh_keys_for_user d g user)
  unfolding find_ssh_keys_for_user ssh_key_access
  found_keys-ageless user =
      map-map_ext ageless_key (ssh_key_access c user) (λ n. ageless_key (ssh_key_access c user n))
        (λ n. refl) _
      ∙ sym (
          map-map_ext ageless_key (ssh_key_access d user)
            (λ n. ageless_key (ssh_key_access c user n)) (λ n. refl) _)

  keys-ageless :
      (us : List LinuxUserAccess)
      → map ageless_key (keys_of_users c g us) ≡ map ageless_key (keys_of_users d g us)
  unfolding keys_of_users
  keys-ageless [] = refl
  keys-ageless (u ∷ us) =
      map-append ageless_key (find_ssh_keys_for_user c g u.id) (keys_of_users c g us)
      ∙ (ap₂ (λ a b. a ++ b) (found_keys-ageless u.id) (keys-ageless us)
          ∙ sym (map-append ageless_key (find_ssh_keys_for_user d g u.id) (keys_of_users d g us)))

  detail_of-ageless :
      (i : String) (o : Option GraphNode)
      → map_some ageless (pure_detail_of c g i o) ≡ map_some ageless (pure_detail_of d g i o)
  detail_of-ageless i none = refl
  detail_of-ageless i (some n) = elim (Bool-cases (is_host n)) [
    | inl e ↦ rw e (
        ap (λ ks. some (record (pure_detail c g n i) { ssh_keys = ks }))
          (keys-ageless (linux_access g i).users))
    | inr e ↦ rw e refl
  ]

  -- At two moments the detail is the same, but for the keys that count as unused.
  pub detail_in-ageless :
      (i : String) → map_some ageless (detail_in c g i) ≡ map_some ageless (detail_in d g i)
  detail_in-ageless i = detail_of-ageless i (get_node_by_id g i)
