-- ===== src/Pipeline/Methods.antt =====
-- apps/backend/src/pipeline/pipeline-engine.ts: the continuations of the two `await`s, the public
-- methods, and one step of the system.
use identity_access_graph.Prelude.{
  ℕ, suc, String, Bool, false, not, ◌&&◌, List, [], ◌∷◌, ◌++◌, map, Option, none, some, ok, throw,
  ltb, ◌==◌, nat_eq, if◌then◌else◌, length, get_elem?, last?, drop_last, filter, index_of, ◌+s◌,
}
use identity_access_graph.Pipeline.Types.{
  Stage, Status, idle, running, paused, completed, failed, stages_order, stage_name, stage_eq,
  status_eq, StageResult, Metric, StageData, StageSnapshot, extraction, PipelineRun,
}
use identity_access_graph.Pipeline.Engine.{
  Outcome, Engine, Loop, Thread, sleeping, stepping, Reply, pending, done, a_run, a_snapshot, error,
  System, percent, stage_count, set_metric, initial_run, tag, Config, Next, return, advance,
  execute_remaining, invoke,
}

-- The `catch` of the loop.
unfoldable pub loop_threw : Stage → String → String → Engine → Engine
loop_threw stage message now e = record e {
  run = record e.run {
    status = failed;
    errors = e.run.errors ++ ("Stage " +s stage_name stage +s " threw: " +s message) ∷ [];
    completed_at = some now;
    current_stage = some stage;
  };
}

-- The snapshot, the errors and the warnings of a result, which both ways of running a stage keep.
unfoldable pub record_result : Stage → StageResult → StageData → Engine → Engine
record_result stage r output e = record e {
  snapshots = e.snapshots ++ record { stage = stage; result = r; output = output } ∷ [];
  run = record e.run {
    errors = e.run.errors ++ map (tag stage) r.errors;
    warnings = e.run.warnings ++ map (tag stage) r.warnings;
  };
}

unfoldable pub loop_failed : Stage → ℕ → String → Engine → Engine
loop_failed stage i now e = record e {
  run = record e.run {
    status = failed;
    current_stage = some stage;
    completed_at = some now;
    progress = percent (suc i) stage_count;
  };
}

abbrev metric_of : StageResult → Metric
metric_of r = record {
  duration_ms = r.duration_ms;
  input_count = r.input_count;
  output_count = r.output_count;
  warnings = length r.warnings;
  errors = length r.errors;
}

unfoldable pub loop_completed : Stage → StageResult → StageData → Engine → Engine
loop_completed stage r output e = record e {
  run = record e.run {
    completed_stages = e.run.completed_stages ++ stage ∷ [];
    metrics = set_metric e.run.metrics stage (metric_of r);
  };
  current_output = some output;
}

-- The rest of a round behind `await this.runStage`.
unfoldable pub loop_settled : Loop → Outcome → String → Engine → Engine × Next
loop_settled l (throw message) now e = (loop_threw l.stage message now e, return)
loop_settled l (ok (r, output)) now e =
    let e' = record_result l.stage r output e in
    if r.status == failed
    then (loop_failed l.stage l.index now e', return)
    else advance l.id (suc l.index) l.rest now (loop_completed l.stage r output e')

-- The rest of `nextStage` behind `await this.runStage`, when that resolves.
unfoldable pub next_settled : Stage → ℕ → StageResult → StageData → String → Engine → Engine
unfolding record_result
next_settled stage i r output now e =
    let e' = record_result stage r output e in
    let stages = e.run.completed_stages ++ stage ∷ [] in
    let finished = not (ltb (length stages) stage_count) in
    record e' {
      current_output = some output;
      run = record e'.run {
        completed_stages = stages;
        status = if r.status == failed then failed else if finished then completed else idle;
        completed_at =
            if r.status == failed
            then e.run.completed_at
            else if finished
            then some now
            else e.run.completed_at;
        current_stage =
            if r.status == failed
            then e.run.current_stage
            else if finished
            then none
            else get_elem? stages_order (suc i);
        progress = percent (length stages) stage_count;
      };
    }

-- `this.run.status = …`.
abbrev pub set_status : Status → Engine → Engine
set_status st e = record e { run = record e.run { status = st } }

abbrev pub refuse : String → System → System × Reply
refuse message s = (s, error message)

-- What a restored engine takes over.
pub record Persisted : Type 0 where
  pub run : PipelineRun
  pub snapshots : List StageSnapshot
  pub current_output : Option StageData
  pub initial_input : Option StageData

pub data Method : Type 0 where
  start : StageData → Method
  pause resume : Method
  seed : StageData → Method
  next_stage previous_stage replay reset : Method
  restore : Persisted → Method

-- The fields that `start` sets before it enters the loop.
unfoldable pub started : StageData → String → Engine → Engine
started input now e = record e {
  execution_id = suc e.execution_id;
  run = record e.run {
    status = running;
    started_at = some now;
    current_stage = some extraction;
    progress = 0;
    errors = [];
    warnings = [];
  };
  snapshots = [];
  initial_input = some input;
  current_output = some input;
}

unfoldable pub start_run : StageData → String → System → System × Reply
start_run input now s =
    if s.engine.run.status == running
    then refuse "Pipeline is already running" s
    else execute_remaining 0 now (record s { engine = started input now s.engine })

unfoldable pub pause_run : System → System × Reply
pause_run s =
    let e = set_status paused s.engine in
    if not (s.engine.run.status == running)
    then refuse "Can only pause a running pipeline" s
    else (record s { engine = e }, a_run e.run)

unfoldable pub resume_at : Option Stage → String → System → System × Reply
resume_at none now s = refuse "No stage to resume from" s
resume_at (some stage) now s =
    let e = set_status running s.engine in
    execute_remaining (index_of stages_order stage) now
      (record s { engine = record e { execution_id = suc e.execution_id } })

unfoldable pub resume_run : String → System → System × Reply
unfolding resume_at
resume_run now s =
    if not (s.engine.run.status == paused)
    then refuse "Can only resume a paused pipeline" s
    else resume_at s.engine.run.current_stage now s

unfoldable pub seed_data : StageData → Engine → Engine
seed_data input e = record e { initial_input = some input; current_output = some input }

-- The fields that `nextStage` sets before it looks at the data.
unfoldable pub next_started : Stage → String → Engine → Engine
next_started stage now e = record e {
  execution_id = suc e.execution_id;
  run = record e.run { status = running; started_at = some now; current_stage = some stage };
}

module _ (c : Config) where
  unfoldable pub next_at : Option Stage → ℕ → Option StageData → String → System → System × Reply
  next_at none i input now s = (s, a_snapshot none)
  next_at (some stage) i none now s =
      refuse "No data seeded. Call seed() or start() first."
        (record s { engine = next_started stage now s.engine })
  next_at (some stage) i (some input) now s = (
    record {
      engine = next_started stage now s.engine;
      threads = s.threads ++ stepping stage i (invoke c stage (some input)) ∷ [];
    },
    pending,
  )

  -- `get_elem?` is `none` where the source tests `startIndex >= PIPELINE_STAGES_ORDER.length`.
  unfoldable pub next_run : String → System → System × Reply
  unfolding next_at
  next_run now s =
      let i = length s.engine.run.completed_stages in
      if not (s.engine.run.status == idle) && not (s.engine.run.status == completed)
      then refuse "nextStage requires IDLE or COMPLETED status" s
      else next_at (get_elem? stages_order i) i s.engine.current_output now s

abbrev pub output_or : Option StageSnapshot → Option StageData → Option StageData
output_or none d = d
output_or (some n) d = some n.output

unfoldable pub previous_at : Option Stage → Engine → Engine
previous_at prev e =
    let rest = drop_last e.snapshots in
    let stages = drop_last e.run.completed_stages in
    record e {
      snapshots = rest;
      current_output = output_or (last? rest) e.initial_input;
      run = record e.run {
        completed_stages = stages;
        current_stage = elim prev [ none ↦ some extraction | some stage ↦ some stage ];
        progress = percent (length stages) stage_count;
        status = idle;
      };
    }

unfoldable pub previous_run : System → System × Reply
unfolding previous_at
previous_run s =
    let e = previous_at (last? s.engine.run.completed_stages) s.engine in
    if length s.engine.run.completed_stages == 0
    then (s, a_snapshot none)
    else (record s { engine = e }, a_snapshot (last? e.snapshots))

-- `clearTimeout(this.timerId)`: the thread that waits for this timer never runs again.
abbrev pub awaits : Option ℕ → Thread → Bool
awaits (some t) (sleeping l t') = t == t'
awaits _ _ = false

unfoldable pub reset_run : String → System → System
unfolding initial_run
reset_run id s = record {
  engine = record s.engine {
    timer_id = none;
    execution_id = 0;
    run = initial_run id;
    snapshots = [];
    current_output = none;
    initial_input = none;
  };
  threads = filter (λ t. not (awaits s.engine.timer_id t)) s.threads;
}

unfoldable pub replay_from : Option StageData → String → String → System → System × Reply
unfolding start_run reset_run
replay_from none id now s = refuse "No initial data to replay from" s
replay_from (some input) id now s = start_run input now (reset_run id s)

unfoldable pub replay_run : String → String → System → System × Reply
unfolding replay_from
replay_run id now s =
    if length s.engine.run.completed_stages == 0
    then refuse "No completed stages to replay" s
    else replay_from s.engine.initial_input id now s

unfoldable pub restore_state : Persisted → Engine → Engine
restore_state p e = record e {
  run = p.run;
  snapshots = p.snapshots;
  current_output = p.current_output;
  initial_input = p.initial_input;
}

abbrev pub persistence_state : Engine → Persisted
persistence_state e = record {
  run = e.run;
  snapshots = e.snapshots;
  current_output = e.current_output;
  initial_input = e.initial_input;
}

-- A method's call, to its first `await`.
unfoldable pub call : Config → Method → String → String → System → System × Reply
unfolding start_run pause_run resume_run next_run previous_run replay_run reset_run
call c (start input) id now s = start_run input now s
call c pause id now s = pause_run s
call c resume id now s = resume_run now s
call c (seed input) id now s = (record s { engine = seed_data input s.engine }, done)
call c next_stage id now s = next_run c now s
call c previous_stage id now s = previous_run s
call c replay id now s = replay_run id now s
call c reset id now s = (reset_run id s, done)
call c (restore p) id now s = (record s { engine = restore_state p s.engine }, done)
