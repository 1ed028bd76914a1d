-- ===== src/Pipeline/Types.antt =====
-- packages/shared-types/src/pipeline.ts, and the data that the stages exchange
-- (apps/backend/src/pipeline/stages/index.ts, apps/backend/src/pipeline/pipeline-engine.ts).
use identity_access_graph.Prelude.{
  ℕ, String, ◌≡◌, ◌↔◌, Bool, true, List, [], ◌∷◌, Option, Equality, ◌==◌, nat_eq, Object, arith,
}

pub data Stage : Type 0 where
  extraction normalization identity_matching graph_build scheduling : Stage

pub data Status : Type 0 where
  idle running paused completed failed : Status

abbrev pub stages_order : List Stage
stages_order = extraction ∷ normalization ∷ identity_matching ∷ graph_build ∷ scheduling ∷ []

-- The values of the enum, as template literals print them.
abbrev pub stage_name : Stage → String
stage_name extraction = "EXTRACTION"
stage_name normalization = "NORMALIZATION"
stage_name identity_matching = "IDENTITY_MATCHING"
stage_name graph_build = "GRAPH_BUILD"
stage_name scheduling = "SCHEDULING"

abbrev pub stage_code : Stage → ℕ
stage_code extraction = 0
stage_code normalization = 1
stage_code identity_matching = 2
stage_code graph_build = 3
stage_code scheduling = 4

abbrev pub status_code : Status → ℕ
status_code idle = 0
status_code running = 1
status_code paused = 2
status_code completed = 3
status_code failed = 4

abbrev pub stage_beq : Stage → Stage → Bool
stage_beq s t = stage_code s == stage_code t

abbrev pub status_beq : Status → Status → Bool
status_beq s t = status_code s == status_code t

pub stage_beq_iff : (s t : Stage) → (stage_beq s t ≡ true) ↔ (s ≡ t)
stage_beq_iff s t = ground arith

pub status_beq_iff : (s t : Status) → (status_beq s t ≡ true) ↔ (s ≡ t)
status_beq_iff s t = ground arith

instance abbrev pub stage_eq : Equality Stage
stage_eq = record { test = stage_beq; test_iff = stage_beq_iff }

instance abbrev pub status_eq : Equality Status
status_eq = record { test = status_beq; test_iff = status_beq_iff }

pub record StageResult : Type 0 where
  pub stage : Stage
  pub status : Status
  pub input_count : ℕ
  pub output_count : ℕ
  pub duration_ms : ℕ
  pub warnings : List String
  pub errors : List String
  pub metadata : Object

pub record Metric : Type 0 where
  pub duration_ms : ℕ
  pub input_count : ℕ
  pub output_count : ℕ
  pub warnings : ℕ
  pub errors : ℕ

pub record PipelineRun : Type 0 where
  pub id : String
  pub status : Status
  pub current_stage : Option Stage
  pub completed_stages : List Stage
  pub started_at : Option String
  pub completed_at : Option String
  pub progress : ℕ
  pub errors : List String
  pub warnings : List String
  pub metrics : List (Stage × Metric)

-- `StageInput` and `StageOutput`, which have the same fields.
pub record StageData : Type 0 where
  pub nodes : List Object
  pub relationships : List Object
  pub metadata : Object

pub record StageSnapshot : Type 0 where
  pub stage : Stage
  pub result : StageResult
  pub output : StageData
