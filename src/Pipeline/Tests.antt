-- ===== src/Pipeline/Tests.antt =====
-- Runs of the pipeline at concrete inputs, and each theorem at one of them.
use identity_access_graph.Prelude.{
  String, ◌≡◌, refl, ◌↔◌, inl, true, [], ◌∷◌, ok, All, str, Object, end, field, strict_equal,
  to_text,
}
use identity_access_graph.Pipeline.Samples.{times, source, ad_user, ipa_user, sound, broken, fresh}
use identity_access_graph.Pipeline.Types.{completed, failed, StageData, stages_order}
use identity_access_graph.Pipeline.Engine.{System, execute_remaining, advance, go_to_sleep, finish}
use identity_access_graph.Pipeline.Methods.{
  start, started, loop_settled, loop_completed, record_result, loop_failed,
}
use identity_access_graph.Pipeline.Step.{calls, step}
use identity_access_graph.Pipeline.Run.{run_stages, rounds, EndsAs}
use identity_access_graph.Pipeline.Run.Sequential.{start-EndsAs}
use identity_access_graph.Pipeline.Stages.{
  stage_handlers, find_matches, same_person, Match, find_match, local_part, before_at, graph_errors,
  relationship_errors, distinct_from, missing, missing_all,
}
use identity_access_graph.Pipeline.Stages.Keeps.{SameIds, run_stages-SameIds}
use identity_access_graph.Pipeline.Stages.Integrity.{IsIntact, start-completed_iff}
use identity_access_graph.Pipeline.Stages.Matching.{
  Justified, find_matches-Justified, same_person_unnamed,
}

-- `start` and five undisturbed rounds.
final : StageData → System
unfolding rounds step stage_handlers execute_remaining advance started loop_settled go_to_sleep
    loop_completed record_result loop_failed finish find_matches find_match same_person local_part
    strict_equal before_at graph_errors relationship_errors distinct_from missing_all missing
final d = rounds source 5 "id" "now" (step source (calls (start d)) "id" "now" fresh).0

final-sound :
    ((final sound).engine.run.status ≡ completed) × ((final sound).engine.run.progress ≡ 100)
unfolding final
final-sound = (refl, refl)

final-broken :
    ((final broken).engine.run.status ≡ failed)
    × ((final broken).engine.run.errors
        ≡ "[GRAPH_BUILD] Relationship r2: target node 'undefined' not found" ∷ [])
unfolding final to_text
final-broken = (refl, refl)

start-completed_iff_example :
    ((rounds source 5 "id" "now"
        (step source (calls (start sound)) "id" "now" fresh).0).engine.run.status
      ≡ completed)
    ↔ IsIntact sound.nodes sound.relationships
start-completed_iff_example =
    start-completed_iff times 5000 "id" "now" fresh sound ((tt, tt), ((tt, tt), tt)) refl (λ e. cc)
      refl

start-EndsAs_example :
    EndsAs
      (rounds source 5 "id" "now" (step source (calls (start broken)) "id" "now" fresh).0)
      []
      (run_stages source stages_order broken)
start-EndsAs_example = start-EndsAs source "id" "now" fresh broken refl (λ e. cc) refl

run_stages-SameIds_example : SameIds (run_stages source stages_order sound).output sound
run_stages-SameIds_example = run_stages-SameIds times 5000 stages_order sound

abbrev joined : Match
joined = record { ad_id = str "u1"; free_ipa_id = str "u2" }

find_matches-Justified_example : All (Justified (ad_user ∷ []) (ipa_user ∷ [])) (joined ∷ [])
unfolding find_matches find_match same_person local_part before_at strict_equal
find_matches-Justified_example =
    find_matches-Justified (ad_user ∷ []) (ipa_user ∷ []) (joined ∷ []) refl

abbrev nameless : String → Object
nameless id = field "id" (str id) (field "sourceId" (str id) end)

two_unnamed_match : same_person (nameless "a") (nameless "b") ≡ ok true
two_unnamed_match = same_person_unnamed (nameless "a") (nameless "b") (inl refl) (inl refl)
