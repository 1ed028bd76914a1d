-- ===== src/Pipeline/Engine.antt =====
-- apps/backend/src/pipeline/pipeline-engine.ts: the state of a `PipelineEngine` and its methods.
--
-- A method runs until its first `await`. `executeRemainingStages` waits twice in a round (for
-- `delay`, and for `runStage`), `nextStage` once; what is left to do then is a `Thread`. The
-- environment resumes the threads in any order (`wake`, `settle`) and calls methods in between.
-- `now` is `new Date().toISOString()` of the step, `id` a fresh `crypto.randomUUID()`.
use identity_access_graph.Prelude.{
  ℕ, suc, ◌+◌, ◌*◌, ◌/◌, String, Bool, true, false, not, List, [], ◌∷◌, ◌++◌, Option, none, some,
  Result, throw, ◌==◌, nat_eq, if◌then◌else◌, length, drop, includes, ◌+s◌, decimal,
}
use identity_access_graph.Pipeline.Types.{
  Stage, idle, running, paused, completed, stages_order, stage_name, stage_eq, status_eq,
  StageResult, Metric, PipelineRun, StageData, StageSnapshot,
}

-- What a stage handler resolves to: its result, and `result.output`.
abbrev pub Outcome : Type 0
Outcome = Result (StageResult × StageData)

pub record Engine : Type 0 where
  pub run : PipelineRun
  pub snapshots : List StageSnapshot
  pub current_output : Option StageData
  pub initial_input : Option StageData
  pub timer_id : Option ℕ
  pub execution_id : ℕ
  pub timers : ℕ  -- the timers that `setTimeout` has handed out

-- An activation of `executeRemainingStages` in the round for `stage`: its `id` and `i`, and the
-- stages of the rounds behind it.
pub record Loop : Type 0 where
  pub id : ℕ
  pub index : ℕ
  pub stage : Stage
  pub rest : List Stage

pub data Thread : Type 0 where
  sleeping : Loop → ℕ → Thread  -- awaits `delay`, on this timer
  racing : Loop → Outcome → Thread  -- awaits `runStage`; the handler has run
  stepping : Stage → ℕ → Outcome → Thread  -- `nextStage`, awaits `runStage`

-- What a method hands back when it stops running.
pub data Reply : Type 0 where
  pending done : Reply
  a_run : PipelineRun → Reply
  a_snapshot : Option StageSnapshot → Reply
  error : String → Reply

pub record System : Type 0 where
  pub engine : Engine
  pub threads : List Thread

-- `Math.round((a / b) * 100)`, for `0 < b`.
abbrev pub percent : ℕ → ℕ → ℕ
percent a b = (200 * a + b) / (2 * b)

abbrev pub stage_count : ℕ
stage_count = length stages_order

abbrev pub set_metric : List (Stage × Metric) → Stage → Metric → List (Stage × Metric)
set_metric [] s m = (s, m) ∷ []
set_metric ((t, n) ∷ ms) s m =
    let rest = set_metric ms s m in if t == s then (s, m) ∷ ms else (t, n) ∷ rest

unfoldable pub initial_run : String → PipelineRun
initial_run id = record {
  id = id;
  status = idle;
  current_stage = none;
  completed_stages = [];
  started_at = none;
  completed_at = none;
  progress = 0;
  errors = [];
  warnings = [];
  metrics = [];
}

unfoldable pub new_engine : String → Engine
unfolding initial_run
new_engine id = record {
  run = initial_run id;
  snapshots = [];
  current_output = none;
  initial_input = none;
  timer_id = none;
  execution_id = 0;
  timers = 0;
}

-- `[${stage}] ${e}`.
abbrev pub tag : Stage → String → String
tag stage e = "[" +s stage_name stage +s "] " +s e

-- The stage handlers of `stages`, and `config.stageTimeoutMs`.
pub record Config : Type 0 where
  pub handlers : Stage → StageData → Outcome
  pub stage_timeout_ms : ℕ

-- What an activation of `executeRemainingStages` does after its synchronous part.
pub data Next : Type 0 where
  sleep : Loop → ℕ → Next
  return : Next

-- The end of `executeRemainingStages`, behind the loop.
unfoldable pub finish : String → Engine → Engine
finish now e = record e {
  run = record e.run {
    status = completed;
    current_stage = none;
    completed_at = some now;
    progress = 100;
  };
}

-- A round up to `await this.delay`.
unfoldable pub go_to_sleep : Loop → Engine → Engine
go_to_sleep l e = record e {
  run = record e.run { current_stage = some l.stage; progress = percent l.index stage_count };
  timer_id = some e.timers;
  timers = suc e.timers;
}

-- The loop of `executeRemainingStages` from round `i`, whose stages are listed, to the next
-- `await` or `return`.
unfoldable pub advance : ℕ → ℕ → List Stage → String → Engine → Engine × Next
advance id i [] now e = (finish now e, return)
advance id i (stage ∷ rest) now e =
    let later = advance id (suc i) rest now e in
    let loop : Loop = record { id = id; index = i; stage = stage; rest = rest } in
    if not (e.execution_id == id)
    then (finish now e, return)
    else if e.run.status == paused
    then (record e { run = record e.run { current_stage = some stage } }, return)
    else if not (e.run.status == running)
    then (finish now e, return)
    else if includes e.run.completed_stages stage
    then later
    else (go_to_sleep loop e, sleep loop e.timers)

abbrev pub suspend : List Thread → Engine × Next → System × Reply
suspend ts (e, sleep l t) = (record { engine = e; threads = ts ++ sleeping l t ∷ [] }, pending)
suspend ts (e, return) = (record { engine = e; threads = ts }, a_run e.run)

-- `executeRemainingStages(fromIndex)`, to its first `await`.
unfoldable pub execute_remaining : ℕ → String → System → System × Reply
execute_remaining from now s =
    suspend s.threads (advance s.engine.execution_id from (drop from stages_order) now s.engine)

module _ (c : Config) where
  -- `handler(input, stage)`; on `null` it rejects with a `TypeError`.
  abbrev pub invoke : Stage → Option StageData → Outcome
  invoke stage none = throw "Cannot read properties of null (reading 'nodes')"
  invoke stage (some input) = c.handlers stage input

  -- `runStage`: the handler's outcome, unless the timer comes first.
  abbrev pub race : Bool → Stage → Outcome → Outcome
  race true stage o =
      throw
        ("Stage " +s stage_name stage +s " timed out after " +s decimal c.stage_timeout_ms +s "ms")
  race false stage o = o
