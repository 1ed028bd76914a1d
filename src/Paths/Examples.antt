-- ===== src/Paths/Examples.antt =====
-- Small graphs for `blastRadius`, `attackPath` and `subgraph` of
-- apps/frontend/src/services/graphInvestigation.ts, runs on them, and the theorems at one.
use identity_access_graph.Prelude.{
  String, [], ◌∷◌, none, some, ◌≡◌, refl, is_some, includes, string_eq, decimal,
}
use identity_access_graph.Paths.Sample.{small}
use identity_access_graph.Paths.Search.{
  directed, search, scan, new_path, shortest_path, path_key, graph_key,
}
use identity_access_graph.Paths.Blast.{
  blast_scan, blast_search, new_blast, BlastRadiusResult, attack_path, subgraph, is_privilege,
}
use identity_access_graph.Paths.Lockstep.{any_link}
use identity_access_graph.Paths.Reached.{new_blast-reaches}
use identity_access_graph.Paths.Attack.{shortest_path-again, IsAttack, attack_path-IsAttack}
use identity_access_graph.Paths.Closed.{IsClosed, subgraph-IsClosed}

radius_found :
    new_blast small "u" 10
    ≡ some (record {
      node_ids = "u" ∷ "g" ∷ "h" ∷ [];
      counts = record {
        users = 0;
        groups = 1;
        hosts = 1;
        apps = 0;
        databases = 0;
        business_services = 0;
      };
    })
unfolding new_blast blast_search blast_scan
radius_found = refl

near_radius_found :
    new_blast small "u" 0
    ≡ some (record {
      node_ids = "u" ∷ "g" ∷ [];
      counts = record {
        users = 0;
        groups = 1;
        hosts = 0;
        apps = 0;
        databases = 0;
        business_services = 0;
      };
    })
unfolding new_blast blast_search blast_scan
near_radius_found = refl

attack_found :
    (attack_path small "u" "h" []).0
    ≡ some (record {
      path = record { node_ids = "u" ∷ "g" ∷ "h" ∷ []; link_ids = "1" ∷ "2" ∷ []; depth = 2 };
      risk_score = 71;
      explanation = "u can reach h through 2 privilege-bearing relationship(s).";
    })
unfolding attack_path shortest_path path_key graph_key new_path search scan decimal
attack_found = refl

no_attack_found : (attack_path small "h" "u" []).0 ≡ none
unfolding attack_path shortest_path path_key graph_key new_path search scan decimal
no_attack_found = refl

new_blast-reaches_example :
    (r : BlastRadiusResult) × (new_blast small "u" 10 ≡ some r)
    × ((target : String)
        → includes r.node_ids target ≡ is_some (new_path small "u" target directed 10 any_link))
new_blast-reaches_example =
    new_blast-reaches small "u" 10 (λ e. cc e)
      (λ e. cc e, (λ e. cc e, (λ e. cc e, (λ e. cc e, tt))))

attack_path-IsAttack_example : IsAttack small "u" "h" (attack_path small "u" "h" []).0
attack_path-IsAttack_example = attack_path-IsAttack small "u" "h" [] refl (λ e. cc e) (λ e. cc e)

shortest_path-again_example :
    shortest_path small "u" "h" directed 10
      (some is_privilege)
      (shortest_path small "u" "h" directed 10 (some is_privilege) []).1
    ≡ shortest_path small "u" "h" directed 10 (some is_privilege) []
shortest_path-again_example = shortest_path-again small "u" "h" directed 10 (some is_privilege) []

subgraph-IsClosed_example : IsClosed (subgraph small ("u" ∷ "h" ∷ []))
subgraph-IsClosed_example =
    subgraph-IsClosed small ("u" ∷ "h" ∷ [])
      ((refl, refl), ((refl, refl), ((refl, refl), ((refl, refl), tt))))
