-- ===== src/Pipeline/HazardTests.antt =====
-- Interleavings of the pipeline at concrete inputs, and each theorem about them at one.
use identity_access_graph.Prelude.{◌≡◌, refl, false, [], ◌∷◌, none, some, ok, arith}
use identity_access_graph.Pipeline.Types.{
  extraction, normalization, identity_matching, graph_build, scheduling, idle, paused, completed,
  failed, StageSnapshot, stages_order,
}
use identity_access_graph.Pipeline.Engine.{Engine, Loop, System, racing, error}
use identity_access_graph.Pipeline.Methods.{start, resume, next_stage, previous_stage, reset}
use identity_access_graph.Pipeline.Step.{calls, settles, step}
use identity_access_graph.Pipeline.Back.{forward_and_back, SamePosition, previous-next}
use identity_access_graph.Pipeline.Hazards.{
  SaysCompleted, resume_in_flight, reset_in_flight, next_unseeded, start_again,
}
use identity_access_graph.Pipeline.Failures.{
  loop_after, next_after, failed_stage, previous-failed_stage,
}
use identity_access_graph.Pipeline.Samples.{
  quick, fresh, sound, broken, quick_result, failed_result,
}

abbrev seeded : System
seeded = record {
  engine = record fresh.engine { initial_input = some sound; current_output = some sound };
  threads = [];
}

previous-next_example :
    SamePosition (forward_and_back quick "id" "now" seeded).engine seeded.engine extraction
previous-next_example =
    previous-next quick "id" "now" seeded extraction sound (quick_result extraction) sound refl refl
      refl refl refl refl

-- The first activation, in the round for the second stage, whose handler is running.
abbrev second : Loop
second = record {
  id = 1;
  index = 1;
  stage = normalization;
  rest = identity_matching ∷ graph_build ∷ scheduling ∷ [];
}

abbrev paused_engine : Engine
paused_engine = record seeded.engine {
  execution_id = 1;
  run = record seeded.engine.run {
    status = paused;
    current_stage = some normalization;
    completed_stages = extraction ∷ [];
  };
}

abbrev in_flight : System
in_flight = record {
  engine = paused_engine;
  threads = racing second (ok (quick_result normalization, sound)) ∷ [];
}

resume_in_flight_example :
    SaysCompleted
      (step quick (settles 0 false) "id" "now" (step quick (calls resume) "id" "now" in_flight).0).0
      (extraction ∷ normalization ∷ [])
resume_in_flight_example =
    resume_in_flight quick "id" "now" in_flight second (quick_result normalization) sound []
      normalization refl refl refl refl (λ e. cc)

reset_in_flight_example :
    let s' =
      (step quick
        (settles 0 false)
        "id"
        "now"
        (step quick (calls reset) "id" "now" in_flight).0).0 in
    SaysCompleted s' (normalization ∷ []) × (s'.engine.run.started_at ≡ none)
reset_in_flight_example =
    reset_in_flight quick "id" "now" in_flight second (quick_result normalization) sound [] refl
      (omega arith) (λ e. cc)

next_unseeded_example :
    let s' = step quick (calls next_stage) "id" "now" fresh in
    (s'.1 ≡ error "No data seeded. Call seed() or start() first.")
    × (step quick (calls (start sound)) "id" "now" s'.0
        ≡ (s'.0, error "Pipeline is already running"))
    × (step quick (calls next_stage) "id" "now" s'.0
        ≡ (s'.0, error "nextStage requires IDLE or COMPLETED status"))
next_unseeded_example = next_unseeded quick "id" "now" fresh sound refl refl (omega arith)

abbrev over : System
over = record {
  engine = record seeded.engine {
    run = record seeded.engine.run { status = completed; completed_stages = stages_order };
  };
  threads = [];
}

second_start_skips :
    let s' = (step quick (calls (start broken)) "id" "now" over).0 in
    SaysCompleted s' stages_order
    × (s'.threads ≡ over.threads)
    × (s'.engine.snapshots ≡ [])
    × (s'.engine.current_output ≡ some broken)
second_start_skips = start_again quick "id" "now" over broken (λ e. cc) refl

abbrev extracted : StageSnapshot
extracted = record { stage = extraction; result = quick_result extraction; output = sound }

abbrev at_second : Engine
at_second = record paused_engine { snapshots = extracted ∷ [] }

failure_recorded :
    ((loop_after quick "id" "now" at_second second
        (failed_result normalization)
        broken
        refl).engine.run.status
      ≡ failed)
    × ((loop_after quick "id" "now" at_second second
          (failed_result normalization)
          broken
          refl).engine.run.completed_stages
        ≡ extraction ∷ [])
    × ((loop_after quick "id" "now" at_second second
          (failed_result normalization)
          broken
          refl).engine.current_output
        ≡ some sound)
    × ((next_after quick "id" "now" at_second second
          (failed_result normalization)
          broken
          refl).engine.run.status
        ≡ failed)
    × ((next_after quick "id" "now" at_second second
          (failed_result normalization)
          broken
          refl).engine.run.completed_stages
        ≡ extraction ∷ normalization ∷ [])
    × ((next_after quick "id" "now" at_second second
          (failed_result normalization)
          broken
          refl).engine.current_output
        ≡ some broken)
failure_recorded =
    failed_stage quick "id" "now" at_second second (failed_result normalization) broken refl

step_back_keeps_output :
    let s =
      (step quick (calls previous_stage) "id" "now" (
        loop_after quick "id" "now" at_second second
          (failed_result normalization)
          broken
          refl)).0 in
    (s.engine.run.completed_stages ≡ [])
    × (s.engine.run.status ≡ idle)
    × (s.engine.current_output ≡ some sound)
step_back_keeps_output =
    previous-failed_stage quick "id" "now" at_second second (failed_result normalization) broken
      refl [] extracted [] extraction refl refl
