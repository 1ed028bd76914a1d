-- ===== src/Linux/SameLogins.antt =====
-- What the functions on directory users, service accounts and applications_of of
-- apps/frontend/src/services/linuxGraphAdapter.ts find is the same before and after the pushes of
-- `getLinuxUsersForHost`.
use identity_access_graph.Prelude.{
  String, List, [], ◌∷◌, ◌≡◌, refl, ap, ap₂, ◌∙◌, string_eq, filter, map, any, if◌then◌else◌,
  filter-map_same, map-map_same, any-map_same, filter-ext, ◌&&◌,
}
use identity_access_graph.Linux.Graph.{
  GraphData, GraphNode, GraphLink, of_type, is_id, end_id, of_relation,
}
use identity_access_graph.Linux.Users.{pushed_node, push_memberships}
use identity_access_graph.Linux.Directory.{
  ad_users_at, ad_access, get_ad_users_for_host, ipa_users_at, ipa_access,
  get_free_ipa_users_for_host, service_accounts_at, service_access, get_service_accounts_for_host,
  is_database, get_databases_for_host, database_links, applications_of, push_application,
  get_applications_for_host, services_of, push_service, services_of_links,
  get_business_services_for_host, has_ad_user, authenticates, ad_or, ipa_or, service_or,
}
use identity_access_graph.Linux.Pushed.{looked_up, looked_up_both}

module _ (g : GraphData) (host : String) where
  ad_access-pushed :
      (n : GraphNode)
      → ad_access (push_memberships g) host (pushed_node g.links n) ≡ ad_access g host n
  unfolding ad_access push_memberships
  ad_access-pushed n =
      rw
        (any-map_same (pushed_node g.links) (λ m. of_type "LINUX_USER" m && has_ad_user m n.id)
          (λ m. refl) g.nodes)
        refl

  ad_users_at-pushed :
      (ls : List GraphLink) → ad_users_at (push_memberships g) host ls ≡ ad_users_at g host ls
  unfolding ad_users_at
  ad_users_at-pushed [] = refl
  ad_users_at-pushed (l ∷ ls) =
      looked_up_both g (ad_or (push_memberships g) host (ad_users_at (push_memberships g) host ls))
        (ad_or g host (ad_users_at g host ls)) (ad_users_at-pushed ls)
        (λ n.
          ap₂ (λ a r. if of_type "USER" n then a ∷ r else r) (ad_access-pushed n)
            (ad_users_at-pushed ls))
        (end_id l.source)

  pub ad-pushed : get_ad_users_for_host (push_memberships g) host ≡ get_ad_users_for_host g host
  unfolding get_ad_users_for_host push_memberships
  ad-pushed = ad_users_at-pushed (filter (authenticates "ACTIVE_DIRECTORY" host) g.links)

  ipa_users_at-pushed :
      (ls : List GraphLink) → ipa_users_at (push_memberships g) host ls ≡ ipa_users_at g host ls
  unfolding ipa_users_at ipa_access
  ipa_users_at-pushed [] = refl
  ipa_users_at-pushed (l ∷ ls) =
      looked_up_both g
        (ipa_or (push_memberships g) host (ipa_users_at (push_memberships g) host ls))
        (ipa_or g host (ipa_users_at g host ls)) (ipa_users_at-pushed ls)
        (λ n. ap (λ r. ipa_access g host n ∷ r) (ipa_users_at-pushed ls)) (end_id l.source)

  pub ipa-pushed :
      get_free_ipa_users_for_host (push_memberships g) host ≡ get_free_ipa_users_for_host g host
  unfolding get_free_ipa_users_for_host push_memberships
  ipa-pushed = ipa_users_at-pushed (filter (authenticates "FREE_IPA" host) g.links)

  accounts-pushed :
      (ls : List GraphLink)
      → service_accounts_at (push_memberships g) host ls ≡ service_accounts_at g host ls
  unfolding service_accounts_at service_access
  accounts-pushed [] = refl
  accounts-pushed (l ∷ ls) =
      looked_up_both g
        (service_or (push_memberships g) host (service_accounts_at (push_memberships g) host ls))
        (service_or g host (service_accounts_at g host ls)) (accounts-pushed ls)
        (λ n. ap (λ r. service_access g host n ∷ r) (accounts-pushed ls)) (end_id l.source)

  pub services-pushed :
      get_service_accounts_for_host (push_memberships g) host ≡ get_service_accounts_for_host g host
  unfolding get_service_accounts_for_host push_memberships
  services-pushed =
      accounts-pushed (filter (λ l. of_relation "RUNS_ON" l && is_id l.target host) g.links)

  databases_of-pushed :
      filter (is_database (push_memberships g) host) (push_memberships g).nodes
      ≡ map (pushed_node g.links) (filter (is_database g host) g.nodes)
  unfolding push_memberships
  databases_of-pushed =
      filter-map_same (pushed_node g.links) (is_database g host) (λ n. refl) g.nodes

  pub databases-pushed :
      get_databases_for_host (push_memberships g) host ≡ get_databases_for_host g host
  unfolding get_databases_for_host
  databases-pushed =
      ap (map (λ (n : GraphNode). n.display_name)) databases_of-pushed
      ∙ map-map_same (pushed_node g.links) (λ (n : GraphNode). n.display_name) (λ n. refl) _

  database_links-pushed : database_links (push_memberships g) host ≡ database_links g host
  unfolding database_links push_memberships
  database_links-pushed =
      filter-ext _ _
        (λ l.
          ap (λ b. of_relation "CONNECTS_TO" l && b)
            (ap (any (λ (n : GraphNode). is_id l.target n.id)) databases_of-pushed
              ∙ any-map_same (pushed_node g.links) (λ n. is_id l.target n.id) (λ n. refl) _))
        g.links

  applications_of-pushed :
      (ls : List GraphLink) (names : List String)
      → applications_of (push_memberships g) host ls names ≡ applications_of g host ls names
  unfolding applications_of
  applications_of-pushed [] names = refl
  applications_of-pushed (l ∷ ls) names =
      applications_of-pushed ls _
      ∙ ap (applications_of g host ls)
          (looked_up g (push_application names) (λ n. refl) (end_id l.source))

  pub applications-pushed :
      get_applications_for_host (push_memberships g) host ≡ get_applications_for_host g host
  unfolding get_applications_for_host
  applications-pushed =
      ap (λ ls. applications_of (push_memberships g) host ls []) database_links-pushed
      ∙ applications_of-pushed (database_links g host) []

  services_of-pushed :
      (ls : List GraphLink) (names : List String)
      → services_of (push_memberships g) host ls names ≡ services_of g host ls names
  unfolding services_of
  services_of-pushed [] names = refl
  services_of-pushed (l ∷ ls) names =
      services_of-pushed ls _
      ∙ ap (services_of g host ls) (looked_up g (push_service names) (λ n. refl) (end_id l.target))

  business_of-pushed :
      (ls : List GraphLink) (names : List String)
      → services_of_links (push_memberships g) host ls names ≡ services_of_links g host ls names
  unfolding services_of_links push_memberships
  business_of-pushed [] names = refl
  business_of-pushed (l ∷ ls) names =
      business_of-pushed ls _ ∙ ap (services_of_links g host ls) (services_of-pushed _ names)

  pub business-pushed :
      get_business_services_for_host (push_memberships g) host
      ≡ get_business_services_for_host g host
  unfolding get_business_services_for_host
  business-pushed =
      ap (λ ls. services_of_links (push_memberships g) host ls []) database_links-pushed
      ∙ business_of-pushed (database_links g host) []
