-- ===== src/Pipeline/Samples.antt =====
-- Data, configurations and engines for the tests.
use identity_access_graph.Prelude.{[], ◌∷◌, none, ok, str, null, Object, end, field}
use identity_access_graph.Pipeline.Types.{Stage, idle, completed, failed, StageResult, StageData}
use identity_access_graph.Pipeline.Engine.{System, Config}
use identity_access_graph.Pipeline.Stages.{Times}
use identity_access_graph.Pipeline.Stages.Keeps.{stage_config}

abbrev pub times : Times
times = record { now_result = "t1"; now_output = "t2"; next_run = "t3"; duration_ms = 4 }

abbrev pub source : Config
source = stage_config times 5000

abbrev pub ad_user : Object
ad_user = field "id" (str "u1") (
    field "nodeType" (str "USER") (
      field "sourceSystem" (str "ACTIVE_DIRECTORY")
        (field "sourceId" (str "ad-1") (field "email" (str "al@corp.com") end))))

abbrev pub ipa_user : Object
ipa_user = field "id" (str "u2") (
    field "nodeType" (str "USER") (
      field "sourceSystem" (str "FREE_IPA")
        (field "sourceId" (str "ipa-1") (field "principalName" (str "al@LINUX") end))))

abbrev pub owns : Object
owns = field "id" (str "r1") (field "sourceNodeId" (str "u1") (field "targetNodeId" (str "u2") end))

abbrev pub dangling : Object
dangling = field "id" (str "r2") (field "source" (str "u1") (field "target" null end))

abbrev pub sound : StageData
sound = record { nodes = ad_user ∷ ipa_user ∷ []; relationships = owns ∷ []; metadata = end }

abbrev pub broken : StageData
broken = record sound { relationships = dangling ∷ [] }

abbrev pub fresh : System
fresh = record {
  engine = record {
    run = record {
      id = "run";
      status = idle;
      current_stage = none;
      completed_stages = [];
      started_at = none;
      completed_at = none;
      progress = 0;
      errors = [];
      warnings = [];
      metrics = [];
    };
    snapshots = [];
    current_output = none;
    initial_input = none;
    timer_id = none;
    execution_id = 0;
    timers = 0;
  };
  threads = [];
}

-- Handlers that pass the data on.
abbrev pub quick_result : Stage → StageResult
quick_result st = record {
  stage = st;
  status = completed;
  input_count = 0;
  output_count = 0;
  duration_ms = 0;
  warnings = [];
  errors = [];
  metadata = end;
}

abbrev pub quick : Config
quick = record { handlers = λ st d. ok (quick_result st, d); stage_timeout_ms = 5000 }

abbrev pub failed_result : Stage → StageResult
failed_result st = record (quick_result st) { status = failed }
