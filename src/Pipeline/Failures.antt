-- ===== src/Pipeline/Failures.antt =====
-- A stage that reports a failure: what the loop and `nextStage` record of it, and a step back.
use identity_access_graph.Prelude.{
  String, ◌≡◌, false, List, [], ◌∷◌, ◌++◌, some, ok, last?-concat, drop_last-concat, length-append,
  arith,
}
use identity_access_graph.Pipeline.Types.{
  Stage, StageData, StageResult, StageSnapshot, failed, idle, status_eq,
}
use identity_access_graph.Pipeline.Engine.{Engine, System, Config, Loop, racing, stepping}
use identity_access_graph.Pipeline.Methods.{
  previous_stage, previous_run, loop_settled, loop_failed, record_result, next_settled,
}
use identity_access_graph.Pipeline.Step.{calls, settles, step}

module _ (c : Config) (id now : String) (e : Engine) (l : Loop) (r : StageResult) (out : StageData)
    (bad : r.status ≡ failed) where
  abbrev pub loop_after : System
  loop_after =
      (step c (settles 0 false) id now
        (record { engine = e; threads = racing l (ok (r, out)) ∷ [] })).0

  abbrev pub next_after : System
  next_after =
      (step c (settles 0 false) id now
        (record { engine = e; threads = stepping l.stage l.index (ok (r, out)) ∷ [] })).0

  -- When a handler reports a failure, the run fails either way; but the loop leaves the stage out
  -- of the completed ones and keeps the data as they were, and `nextStage` counts the stage as
  -- completed and goes on from its output.
  pub failed_stage :
      (loop_after.engine.run.status ≡ failed)
      × (loop_after.engine.run.completed_stages ≡ e.run.completed_stages)
      × (loop_after.engine.current_output ≡ e.current_output)
      × (next_after.engine.run.status ≡ failed)
      × (next_after.engine.run.completed_stages ≡ e.run.completed_stages ++ l.stage ∷ [])
      × (next_after.engine.current_output ≡ some out)
  unfolding step loop_settled loop_failed record_result next_settled
  failed_stage = ground arith

  loop_after_lem : loop_after ≡ record {
    engine = loop_failed l.stage l.index now (record_result l.stage r out e);
    threads = [];
  }
  unfolding step loop_settled
  loop_after_lem = ground arith

  -- A step back from a failure of the loop undoes the stage that completed last, and leaves the
  -- data that this stage put out: the next step would run it again on its own output.
  pub previous-failed_stage :
      (ns : List StageSnapshot) (n : StageSnapshot) (ss : List Stage) (p : Stage)
      → e.snapshots ≡ ns ++ n ∷ []
      → e.run.completed_stages ≡ ss ++ p ∷ []
      → let s = (step c (calls previous_stage) id now loop_after).0 in
        (s.engine.run.completed_stages ≡ ss)
        × (s.engine.run.status ≡ idle)
        × (s.engine.current_output ≡ some n.output)
  unfolding loop_failed record_result previous_run
  previous-failed_stage ns n ss p hn hs = rw loop_after_lem (
      unfold step in
      ground (
        arith,
        length-append ss (p ∷ []),
        drop_last-concat ss p,
        last?-concat ns n,
        last?-concat ss p,
        drop_last-concat e.snapshots (record { stage = l.stage; result = r; output = out }),
      ))
