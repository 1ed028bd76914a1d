-- ===== src/Pipeline/Schedule.antt =====
-- Interleavings of calls and resumptions in which no second activation is started while one is
-- under way, and what the engine keeps along them.
pub mod Order
pub mod Rounds
pub mod Resumptions
pub mod Calls
pub mod Reachable
use identity_access_graph.Prelude.{
  ℕ, suc, String, ◌≡◌, ◌⊎◌, List, [], ◌∷◌, ◌++◌, Option, some, none, throw, ok, length, head?,
}
use identity_access_graph.Pipeline.Types.{
  Stage, Status, running, paused, completed, stages_order, StageData,
}
use identity_access_graph.Pipeline.Engine.{
  Engine, Loop, Thread, sleeping, racing, stepping, System, Config, invoke, Outcome,
}
use identity_access_graph.Pipeline.Methods.{
  start, pause, resume, seed, next_stage, previous_stage, replay, reset, restore,
}
use identity_access_graph.Pipeline.Step.{Event, calls, wakes, settles}

abbrev pub output_of : Outcome → Option StageData
output_of (throw message) = none
output_of (ok (r, output)) = some output

abbrev pub IsActive : Status → Type 0
IsActive st = (st ≡ running) ⊎ (st ≡ paused)

module _ (c : Config) where
  -- The data behind these stages, each on the output of the one before it.
  pub apply_stages : List Stage → Option StageData → Option StageData
  apply_stages [] d = d
  apply_stages (s ∷ ss) d = apply_stages ss (output_of (invoke c s d))

  -- What a thread knows of the engine; `rest` are the stages that have not completed.
  abbrev pub LoopFits : Engine → List Stage → Loop → Type 0
  LoopFits e rest l =
      (l.stage ∷ l.rest ≡ rest)
      × (l.id ≡ e.execution_id)
      × (l.index ≡ length e.run.completed_stages)
      × IsActive e.run.status

  abbrev pub Fits : Engine → List Stage → Thread → Type 0
  Fits e rest (sleeping l t) = LoopFits e rest l × (e.timer_id ≡ some t)
  Fits e rest (racing l o) = LoopFits e rest l × (o ≡ invoke c l.stage e.current_output)
  Fits e rest (stepping stage i o) =
      (head? rest ≡ some stage)
      × (i ≡ length e.run.completed_stages)
      × (o ≡ invoke c stage e.current_output)
      × (e.run.current_stage ≡ some stage)
      × IsActive e.run.status

  -- At most one thread; a run that is under way with none can go on at `current_stage`.
  abbrev pub ThreadsFit : Engine → List Stage → List Thread → Type 0
  ThreadsFit e rest [] = IsActive e.run.status → e.run.current_stage ≡ head? rest
  ThreadsFit e rest (t ∷ []) = Fits e rest t
  ThreadsFit e rest (t ∷ u ∷ ts) = ⊥

  pub record Inv (e : Engine) (ts : List Thread) : Type 0 where
    pub rest : List Stage
    pub split : e.run.completed_stages ++ rest ≡ stages_order
    pub output : apply_stages e.run.completed_stages e.initial_input ≡ e.current_output
    pub finished : e.run.status ≡ completed → e.run.completed_stages ≡ stages_order
    pub threads : ThreadsFit e rest ts

abbrev pub SystemInv : Config → System → Type 0
SystemInv c s = Inv c s.engine s.threads

-- No handler is running.
abbrev pub IsQuiet : List Thread → Type 0
IsQuiet [] = Unit
IsQuiet (sleeping l t ∷ ts) = IsQuiet ts
IsQuiet (racing l o ∷ ts) = ⊥
IsQuiet (stepping stage i o ∷ ts) = ⊥

-- A caller that waits for what is under way before it starts, resumes, seeds or replays, that
-- starts and seeds a fresh engine only, and that resets while no handler is running. `pause` and
-- `nextStage` may be called, and threads resumed and handlers timed out, at any time.
abbrev pub Allowed : System → Event → Type 0
Allowed s (calls (start d)) = (s.threads ≡ []) × (s.engine.run.completed_stages ≡ [])
Allowed s (calls pause) = Unit
Allowed s (calls resume) = s.threads ≡ []
Allowed s (calls (seed d)) = (s.threads ≡ []) × (s.engine.run.completed_stages ≡ [])
Allowed s (calls next_stage) = Unit
Allowed s (calls previous_stage) = ⊥
Allowed s (calls replay) = s.threads ≡ []
Allowed s (calls reset) = IsQuiet s.threads
Allowed s (calls (restore p)) = ⊥
Allowed s (wakes k) = Unit
Allowed s (settles k timed_out) = Unit
