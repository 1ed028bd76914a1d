-- ===== src/Pipeline/Run.antt =====
-- What a pipeline run promises: the stages in order, each on the output of the one before it, up
-- to the first that fails; and the schedule of a run that nothing disturbs.
pub mod Sequential
use identity_access_graph.Prelude.{
  ℕ, zero, suc, String, ◌≡◌, Bool, false, List, [], ◌∷◌, ◌++◌, Option, some, ok, throw, ◌==◌,
  if◌then◌else◌, All, includes, Result,
}
use identity_access_graph.Pipeline.Types.{
  Stage, Status, completed, failed, stage_eq, status_eq, StageResult, StageData,
}
use identity_access_graph.Pipeline.Engine.{Outcome, System, Config}
use identity_access_graph.Pipeline.Step.{wakes, settles, step}

-- The stages that completed, the output of the last of them, and how the run ended.
pub record Ran : Type 0 where
  pub stages : List Stage
  pub output : StageData
  pub status : Status

abbrev pub cons_stage : Stage → Ran → Ran
cons_stage s r = record r { stages = s ∷ r.stages }

abbrev pub stopped : StageData → Ran
stopped d = record { stages = []; output = d; status = failed }

module _ (c : Config) where
  -- The runs of the remaining stages, the first of which had this outcome on `d`.
  abbrev pub after : Stage → StageData → Outcome → (StageData → Ran) → Ran
  after s d (throw message) k = stopped d
  after s d (ok (r, output)) k = if r.status == failed then stopped d else cons_stage s (k output)

  unfoldable pub run_stages : List Stage → StageData → Ran
  run_stages [] d = record { stages = []; output = d; status = completed }
  run_stages (s ∷ ss) d = after s d (c.handlers s d) (run_stages ss)

  -- One round of the loop with nothing in between, and no timeout.
  abbrev pub round : String → String → System → System
  round id now s = (step c (settles 0 false) id now (step c (wakes 0) id now s).0).0

  unfoldable pub rounds : ℕ → String → String → System → System
  rounds zero id now s = s
  rounds (suc n) id now s = rounds n id now (round id now s)

-- A run has ended as the specification says.
pub record EndsAs (s : System) (before : List Stage) (r : Ran) : Type 0 where
  pub threads : s.threads ≡ []
  pub status : s.engine.run.status ≡ r.status
  pub stages : s.engine.run.completed_stages ≡ before ++ r.stages
  pub output : s.engine.current_output ≡ some r.output
