-- ===== src/Pipeline/Back.antt =====
-- Single steps, forward and back (`nextStage`, `previousStage`).
use identity_access_graph.Prelude.{
  ℕ, String, ◌≡◌, false, [], ◌∷◌, some, ok, last?, last?-concat, drop_last-concat, length,
  length-append, arith, get_elem?,
}
use identity_access_graph.Pipeline.Types.{
  Stage, StageData, StageResult, idle, stages_order, status_eq,
}
use identity_access_graph.Pipeline.Engine.{Engine, System, Config}
use identity_access_graph.Pipeline.Methods.{
  next_stage, previous_stage, next_run, next_started, next_settled, previous_run, output_or,
}
use identity_access_graph.Pipeline.Step.{calls, settles, step}

-- `nextStage`, its handler not too late, and `previousStage`.
abbrev pub forward_and_back : Config → String → String → System → System
forward_and_back c id now s =
    (step c (calls previous_stage) id now
      (step c (settles 0 false) id now (step c (calls next_stage) id now s).0).0).0

-- The state of a run that `previousStage` gives back.
pub record SamePosition (e' e : Engine) (stage : Stage) : Type 0 where
  pub stages : e'.run.completed_stages ≡ e.run.completed_stages
  pub snapshots : e'.snapshots ≡ e.snapshots
  pub output : e'.current_output ≡ e.current_output
  pub status : e'.run.status ≡ idle
  pub current : e'.run.current_stage ≡ some stage

previous-next_settled :
    (e : Engine) (stage : Stage) (i : ℕ) (r : StageResult) (out : StageData) (now : String)
    → output_or (last? e.snapshots) e.initial_input ≡ e.current_output
    → SamePosition
        (previous_run (record { engine = next_settled stage i r out now e; threads = [] })).0.engine
        e
        stage
unfolding previous_run next_settled
previous-next_settled e stage i r out now fits = ground (
  arith,
  length-append e.run.completed_stages (stage ∷ []),
  last?-concat e.run.completed_stages stage,
  drop_last-concat e.run.completed_stages stage,
  drop_last-concat e.snapshots (record { stage = stage; result = r; output = out }),
)

next_at_lem :
    (c : Config) (id now : String) (s : System) (stage : Stage) (d : StageData) (r : StageResult)
    (out : StageData)
    → s.threads ≡ []
    → s.engine.run.status ≡ idle
    → get_elem? stages_order (length s.engine.run.completed_stages) ≡ some stage
    → s.engine.current_output ≡ some d
    → c.handlers stage d ≡ ok (r, out)
    → (step c (settles 0 false) id now (step c (calls next_stage) id now s).0).0 ≡ record {
      engine =
          next_settled stage
            (length s.engine.run.completed_stages)
            r
            out
            now
            (next_started stage now s.engine);
      threads = [];
    }
unfolding step next_run
next_at_lem c id now s stage d r out ht hs hi hd h = ground arith

-- On an idle run with nothing under way, whose data are the output of the last snapshot (or the
-- initial input), a single step whose handler succeeds and `previousStage` after it restore the
-- completed stages, the snapshots and the data; the run is idle, at the stage that was undone.
pub previous-next :
    (c : Config) (id now : String) (s : System) (stage : Stage) (d : StageData) (r : StageResult)
    (out : StageData)
    → s.threads ≡ []
    → s.engine.run.status ≡ idle
    → get_elem? stages_order (length s.engine.run.completed_stages) ≡ some stage
    → s.engine.current_output ≡ some d
    → c.handlers stage d ≡ ok (r, out)
    → output_or (last? s.engine.snapshots) s.engine.initial_input ≡ s.engine.current_output
    → SamePosition (forward_and_back c id now s).engine s.engine stage
unfolding next_started
previous-next c id now s stage d r out ht hs hi hd h fits =
    let v =
      previous-next_settled (next_started stage now s.engine) stage
        (length s.engine.run.completed_stages) r out now fits in
    rw (next_at_lem c id now s stage d r out ht hs hi hd h, forward_and_back)
      (unfold step in
        record {
          stages = v.stages;
          snapshots = v.snapshots;
          output = v.output;
          status = v.status;
          current = v.current;
        })
