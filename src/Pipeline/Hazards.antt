-- ===== src/Pipeline/Hazards.antt =====
-- Where the engine does not keep what its schedule promises: a second activation beside the first,
-- a reset under a running handler, a step with no data, a start that finds stages completed, and a
-- step back from a failure.
use identity_access_graph.Prelude.{
  ℕ, zero, suc, filter, not, String, ◌≡◌, refl, sym, ap, subst, ◌∙◌, ◌≢◌, false, List, [], ◌∷◌,
  ◌++◌, Option, some, none, ok, length, ◌<◌, arith, get_elem?, ==_ne, index_of, drop, nat_eq,
}
use identity_access_graph.Pipeline.Types.{
  Stage, StageData, StageResult, running, paused, completed, idle, failed, stages_order, extraction,
  normalization, identity_matching, graph_build, scheduling, status_eq, stage_eq,
}
use identity_access_graph.Pipeline.Engine.{
  Engine, Outcome, System, Config, Loop, Thread, racing, sleeping, advance, finish, error,
  initial_run, Next, return, sleep, go_to_sleep, suspend, execute_remaining,
}
use identity_access_graph.Pipeline.Methods.{
  start, resume, next_stage, reset, resume_run, resume_at, loop_settled, loop_completed,
  record_result, reset_run, next_run, start_run, started, set_status, awaits, next_started,
}
use identity_access_graph.Pipeline.Step.{calls, settles, step}

-- A round of a loop whose activation is no longer the current one ends the run as completed.
advance_stale :
    (id i : ℕ) (rest : List Stage) (now : String) (e : Engine)
    → e.execution_id ≢ id
    → advance id i rest now e ≡ (finish now e, return)
unfolding advance
advance_stale id i [] now e h = refl
advance_stale id i (stage ∷ rest) now e h = rw (==_ne e.execution_id id h)

loop_settled_stale :
    (l : Loop) (r : StageResult) (out : StageData) (now : String) (e : Engine)
    → e.execution_id ≢ l.id
    → r.status ≢ failed
    → loop_settled l (ok (r, out)) now e
      ≡ (finish now (loop_completed l.stage r out (record_result l.stage r out e)), return)
unfolding loop_settled loop_completed record_result
loop_settled_stale l r out now e h f =
    rw (==_ne r.status failed f) (advance_stale l.id (suc l.index) l.rest now _ h)

-- What a run says of itself after a loop that should have given up.
abbrev pub SaysCompleted : System → List Stage → Type 0
SaysCompleted s stages =
    (s.engine.run.status ≡ completed)
    × (s.engine.run.progress ≡ 100)
    × (s.engine.run.completed_stages ≡ stages)

settled_stale :
    (c : Config) (id now : String) (e : Engine) (l : Loop) (r : StageResult) (out : StageData)
    (ts : List Thread)
    → e.execution_id ≢ l.id
    → r.status ≢ failed
    → let s' =
        (step c
          (settles 0 false)
          id
          now
          (record { engine = e; threads = racing l (ok (r, out)) ∷ ts })).0 in
      SaysCompleted s' (e.run.completed_stages ++ l.stage ∷ [])
      × (s'.engine.run.started_at ≡ e.run.started_at)
unfolding step finish loop_completed record_result
settled_stale c id now e l r out ts h f =
    rw (loop_settled_stale l r out now e h f, step) ((refl, refl, refl), refl)

advance-keeps :
    (id i : ℕ) (rest : List Stage) (now : String) (e : Engine)
    → let e' = (advance id i rest now e).0 in
      (e'.execution_id ≡ e.execution_id) × (e'.run.completed_stages ≡ e.run.completed_stages)
unfolding advance finish go_to_sleep
advance-keeps id i [] now e = (refl, refl)
advance-keeps id i (stage ∷ rest) now e = ground (arith, advance-keeps id (suc i) rest now e)

suspend-cons :
    (t : Thread) (ts : List Thread) (n : Engine × Next)
    → (ts' : List Thread) × ((suspend (t ∷ ts) n).0 ≡ record { engine = n.0; threads = t ∷ ts' })
suspend-cons t ts (e, sleep l n) = (ts ++ sleeping l n ∷ [], refl)
suspend-cons t ts (e, return) = (ts, refl)

resume_run_lem :
    (s : System) (st : Stage) (now : String)
    → s.engine.run.status ≡ paused
    → s.engine.run.current_stage ≡ some st
    → resume_run now s ≡ resume_at (some st) now s
unfolding resume_run
resume_run_lem s st now hp hs = ground arith

-- `resume` leaves the activation that is under way first in line, under an identifier that is no
-- longer the current one.
resume_keeps :
    (e : Engine) (t : Thread) (ts : List Thread) (st : Stage) (now : String)
    → (e' : Engine) × (ts' : List Thread) × ((resume_at
          (some st)
          now
          (record { engine = e; threads = t ∷ ts })).0
        ≡ record { engine = e'; threads = t ∷ ts' })
      × (e'.execution_id ≡ suc e.execution_id)
      × (e'.run.completed_stages ≡ e.run.completed_stages)
unfolding resume_at execute_remaining
resume_keeps e t ts st now =
    let e1 = set_status running e in
    let e2 : Engine = record e1 { execution_id = suc e.execution_id } in
    let i = index_of stages_order st in
    let n = advance e2.execution_id i (drop i stages_order) now e2 in
    let kept = advance-keeps e2.execution_id i (drop i stages_order) now e2 in
    let (ts', same) = suspend-cons t ts n in (n.0, ts', same, kept.0, kept.1)

-- Resuming while a handler of the paused activation is still running: when that handler succeeds,
-- the old activation ends the run as completed, at 100 %, whatever stages are still to come.
pub resume_in_flight :
    (c : Config) (id now : String) (s : System) (l : Loop) (r : StageResult) (out : StageData)
    (ts : List Thread) (st : Stage)
    → s.threads ≡ racing l (ok (r, out)) ∷ ts
    → s.engine.run.status ≡ paused
    → s.engine.run.current_stage ≡ some st
    → l.id ≡ s.engine.execution_id
    → r.status ≢ failed
    → SaysCompleted
        (step c (settles 0 false) id now (step c (calls resume) id now s).0).0
        (s.engine.run.completed_stages ++ l.stage ∷ [])
unfolding step
resume_in_flight c id now s l r out ts st ht hp hs hid hr =
    let t = racing l (ok (r, out)) in
    let (e, ts', same, fresh, kept) = resume_keeps s.engine t ts st now in
    let resumed : (resume_run now s).0 ≡ record { engine = e; threads = t ∷ ts' } =
      ap (λ x. x.0) (resume_run_lem s st now hp hs)
      ∙ ap (λ x. (resume_at (some st) now (record { engine = s.engine; threads = x })).0) ht
      ∙ same in
    let stale : e.execution_id ≢ l.id = λ q. absurd (omega (arith, q, fresh, hid)) in
    subst
      (λ x.
        SaysCompleted (step c (settles 0 false) id now x).0
          (s.engine.run.completed_stages ++ l.stage ∷ []))
      (sym resumed)
      (subst
        (λ x.
          SaysCompleted
            (step c (settles 0 false) id now (record { engine = e; threads = t ∷ ts' })).0
            (x ++ l.stage ∷ []))
        kept (settled_stale c id now e l r out ts' stale hr).0)

awaits-racing : (t : Option ℕ) (l : Loop) (o : Outcome) → awaits t (racing l o) ≡ false
awaits-racing none l o = refl
awaits-racing (some t) l o = refl

reset_keeps :
    (id : String) (e : Engine) (l : Loop) (o : Outcome) (ts : List Thread)
    → (reset_run id (record { engine = e; threads = racing l o ∷ ts })).threads
      ≡ racing l o ∷ filter (λ t. not (awaits e.timer_id t)) ts
unfolding reset_run
reset_keeps id e l o ts = rw (awaits-racing e.timer_id l o)

-- `reset` while a handler is running leaves its activation alive: when that handler succeeds, the
-- new run says that it is completed, with that one stage and with no start time.
pub reset_in_flight :
    (c : Config) (id now : String) (s : System) (l : Loop) (r : StageResult) (out : StageData)
    (ts : List Thread)
    → s.threads ≡ racing l (ok (r, out)) ∷ ts
    → l.id ≢ 0
    → r.status ≢ failed
    → let s' = (step c (settles 0 false) id now (step c (calls reset) id now s).0).0 in
      SaysCompleted s' (l.stage ∷ []) × (s'.engine.run.started_at ≡ none)
unfolding step reset_run initial_run
reset_in_flight c id now s l r out ts ht hl hr =
    let o = ok (r, out) in
    let kept : (reset_run id s).threads
        ≡ racing l o ∷ filter (λ t. not (awaits s.engine.timer_id t)) ts =
      ap (λ x. (reset_run id (record { engine = s.engine; threads = x })).threads) ht
      ∙ reset_keeps id s.engine l o ts in
    let e : Engine = (reset_run id s).engine in
    let stale : e.execution_id ≢ l.id = λ q. hl (sym q) in
    subst
      (λ x.
        let s' = (step c (settles 0 false) id now (record { engine = e; threads = x })).0 in
        SaysCompleted s' (l.stage ∷ []) × (s'.engine.run.started_at ≡ none))
      (sym kept) (settled_stale c id now e l r out _ stale hr)

stage_at : (i : ℕ) → i < 5 → (st : Stage) × (get_elem? stages_order i ≡ some st)
stage_at zero h = (extraction, refl)
stage_at (suc zero) h = (normalization, refl)
stage_at (suc (suc zero)) h = (identity_matching, refl)
stage_at (suc (suc (suc zero))) h = (graph_build, refl)
stage_at (suc (suc (suc (suc zero)))) h = (scheduling, refl)
stage_at (suc (suc (suc (suc (suc i))))) h = absurd (omega arith)

unseeded_lem :
    (c : Config) (id now : String) (s : System) (st : Stage)
    → s.engine.run.status ≡ idle
    → s.engine.current_output ≡ none
    → get_elem? stages_order (length s.engine.run.completed_stages) ≡ some st
    → step c (calls next_stage) id now s ≡ (
      record s { engine = next_started st now s.engine },
      error "No data seeded. Call seed() or start() first.",
    )
unfolding step next_run
unseeded_lem c id now s st hi ho at = ground arith

-- On an idle engine without data, with fewer than all stages completed, `nextStage` fails, but leaves
-- the engine running: a `start` or a second `nextStage` that is called next is refused, and changes
-- nothing.
pub next_unseeded :
    (c : Config) (id now : String) (s : System) (d : StageData)
    → s.engine.run.status ≡ idle
    → s.engine.current_output ≡ none
    → length s.engine.run.completed_stages < length stages_order
    → let s' = step c (calls next_stage) id now s in
      (s'.1 ≡ error "No data seeded. Call seed() or start() first.")
      × (step c (calls (start d)) id now s'.0 ≡ (s'.0, error "Pipeline is already running"))
      × (step c (calls next_stage) id now s'.0
          ≡ (s'.0, error "nextStage requires IDLE or COMPLETED status"))
unfolding next_started
next_unseeded c id now s d hi ho hl =
    let (st, at) = stage_at (length s.engine.run.completed_stages) hl in
    rw (unseeded_lem c id now s st hi ho at) (unfold step start_run next_run in (refl, refl, refl))

-- `start` on a run that has completed every stage keeps them: no handler runs on the new data, and
-- the run is at once completed again, with the input for its output.
pub start_again :
    (c : Config) (id now : String) (s : System) (d : StageData)
    → s.engine.run.status ≢ running
    → s.engine.run.completed_stages ≡ stages_order
    → let s' = (step c (calls (start d)) id now s).0 in
      SaysCompleted s' stages_order
      × (s'.threads ≡ s.threads)
      × (s'.engine.snapshots ≡ [])
      × (s'.engine.current_output ≡ some d)
unfolding step start_run started execute_remaining advance finish
start_again c id now s d hr hc = ground arith
