-- ===== src/Pipeline/Run/Sequential.antt =====
-- `start` followed by rounds of the loop does what the specification says.
use identity_access_graph.Prelude.{
  ℕ, zero, suc, String, ◌≡◌, refl, sym, ap, subst, ◌∙◌, true, false, ◌||◌, List, [], ◌∷◌, ◌++◌,
  some, ok, throw, ◌==◌, All, includes, arith, append_assoc, append-nil, length, Bool-cases, inl,
  inr, ◌≢◌,
}
use identity_access_graph.Pipeline.Types.{
  Stage, running, failed, stage_eq, status_eq, StageResult, StageData, stages_order, extraction,
  normalization, identity_matching, graph_build, scheduling,
}
use identity_access_graph.Pipeline.Engine.{
  Outcome, Engine, Loop, sleeping, System, Config, advance, sleep, go_to_sleep, finish, suspend,
  execute_remaining, invoke,
}
use identity_access_graph.Pipeline.Methods.{
  loop_settled, loop_threw, loop_failed, loop_completed, record_result, start, started, start_run,
}
use identity_access_graph.Pipeline.Step.{calls, step}
use identity_access_graph.Pipeline.Run.{
  Ran, stopped, cons_stage, after, run_stages, round, rounds, EndsAs,
}

includes-concat :
    (xs : List Stage) (x y : Stage) → includes (xs ++ x ∷ []) y ≡ (includes xs y || (x == y))
includes-concat [] x y = ground arith
includes-concat (z ∷ xs) x y = ground (arith, includes-concat xs x y)

-- The stages still to run: none of them completed, and none listed twice.
abbrev IsFresh : List Stage → List Stage → Type 0
IsFresh done [] = Unit
IsFresh done (s ∷ ss) = (includes done s ≡ false) × All (λ t. (s == t) ≡ false) ss × IsFresh done ss

IsFresh-concat :
    (done : List Stage) (s : Stage) (ss : List Stage)
    → All (λ t. (s == t) ≡ false) ss
    → IsFresh done ss
    → IsFresh (done ++ s ∷ []) ss
IsFresh-concat done s [] h f = tt
IsFresh-concat done s (t ∷ ss) h f =
    (rw (includes-concat done s t) (rw (f.0, h.0)), f.1, IsFresh-concat done s ss h.1 f.2)

pub advance_fresh :
    (id i : ℕ) (stage : Stage) (rest : List Stage) (now : String) (e : Engine)
    → e.execution_id ≡ id
    → e.run.status ≡ running
    → includes e.run.completed_stages stage ≡ false
    → let l : Loop = record { id = id; index = i; stage = stage; rest = rest } in
      advance id i (stage ∷ rest) now e ≡ (go_to_sleep l e, sleep l e.timers)
unfolding advance
advance_fresh id i stage rest now e h r f = ground arith

module _ (c : Config) (id now : String) where
  abbrev pub asleep : Engine → Loop → ℕ → System
  asleep e l t = record { engine = e; threads = sleeping l t ∷ [] }

  round_idle : (s : System) → s.threads ≡ [] → round c id now s ≡ s
  unfolding step
  round_idle s h = rw (h, step) (ground arith)

  rounds_idle : (n : ℕ) (s : System) → s.threads ≡ [] → rounds c n id now s ≡ s
  unfolding rounds
  rounds_idle zero s h = refl
  rounds_idle (suc n) s h = rw (round_idle s h) (rounds_idle n s h)

  round_lem :
      (e : Engine) (l : Loop) (t : ℕ)
      → round c id now (asleep e l t)
        ≡ (suspend [] (loop_settled l (invoke c l.stage e.current_output) now e)).0
  unfolding step
  round_lem e l t = refl

  module _ (e : Engine) (l : Loop) (t : ℕ) where
    abbrev outcome : Outcome
    outcome = invoke c l.stage e.current_output

    round_threw :
        (m : String)
        → outcome ≡ throw m
        → round c id now (asleep e l t)
          ≡ record { engine = loop_threw l.stage m now e; threads = [] }
    unfolding loop_settled
    round_threw m h = rw (round_lem e l t) (rw h)

    module _ (r : StageResult) (out : StageData) (h : outcome ≡ ok (r, out)) where
      round_failed :
          (r.status == failed) ≡ true
          → round c id now (asleep e l t) ≡ record {
            engine = loop_failed l.stage l.index now (record_result l.stage r out e);
            threads = [];
          }
      unfolding loop_settled
      round_failed f = rw (round_lem e l t) (rw h (rw f))

      round_on :
          (r.status == failed) ≡ false
          → round c id now (asleep e l t)
            ≡ (suspend [] (
                advance l.id
                  (suc l.index)
                  l.rest
                  now
                  (loop_completed l.stage r out (record_result l.stage r out e)))).0
      unfolding loop_settled
      round_on f = rw (round_lem e l t) (rw h (rw f))

  abbrev pub completes : Stage → StageResult → StageData → Engine → Engine
  completes stage r out e = loop_completed stage r out (record_result stage r out e)

  EndsAs-cons :
      (s : System) (before : List Stage) (stage : Stage) (r : Ran)
      → EndsAs s (before ++ stage ∷ []) r
      → EndsAs s before (cons_stage stage r)
  EndsAs-cons s before stage r h = record {
    threads = h.threads;
    status = h.status;
    stages = h.stages ∙ append_assoc before (stage ∷ []) r.stages;
    output = h.output;
  }

  ends_stopped :
      (e e' : Engine) (d : StageData)
      → e.current_output ≡ some d
      → e'.run.status ≡ failed
      → e'.run.completed_stages ≡ e.run.completed_stages
      → e'.current_output ≡ e.current_output
      → (n : ℕ) (s : System) → s ≡ record { engine = e'; threads = [] }
      → EndsAs (rounds c n id now s) e.run.completed_stages (stopped d)
  ends_stopped e e' d hd f st out n s h =
      rw (h, rounds_idle n (record { engine = e'; threads = [] }) refl)
        (record { threads = refl; status = f; stages = st ∙ sym (append-nil _); output = out ∙ hd })

  -- The rounds that follow a stage that completed.
  module _ (ident i : ℕ) (stage : Stage) (d : StageData) where
    abbrev Continues : List Stage → Type 0
    Continues rest =
        (r : StageResult) (out : StageData) (e : Engine)
        → e.execution_id ≡ ident
        → e.run.status ≡ running
        → IsFresh e.run.completed_stages (stage ∷ rest)
        → EndsAs
            (rounds c (length rest) id now
              (suspend [] (advance ident (suc i) rest now (completes stage r out e))).0)
            (e.run.completed_stages ++ stage ∷ []) (run_stages c rest out)

    ends_after :
        (rest : List Stage) (e : Engine) (t : ℕ)
        → Continues rest
        → e.execution_id ≡ ident
        → e.run.status ≡ running
        → e.current_output ≡ some d
        → IsFresh e.run.completed_stages (stage ∷ rest)
        → let l : Loop = record { id = ident; index = i; stage = stage; rest = rest } in
          (o : Outcome)
          → c.handlers stage d ≡ o
          → EndsAs
              (rounds c (length rest) id now (round c id now (asleep e l t)))
              e.run.completed_stages
              (after c stage d o (run_stages c rest))
    unfolding loop_threw loop_failed record_result
    ends_after rest e t k he hr hd hf (throw m) h =
        ends_stopped e (loop_threw stage m now e) d hd refl refl refl (length rest) _
          (round_threw e _ t m (ap (invoke c stage) hd ∙ h))
    ends_after rest e t k he hr hd hf (ok (r, out)) h = elim (Bool-cases (r.status == failed)) [
      | inl f ↦ rw f (
          ends_stopped e (loop_failed stage i now (record_result stage r out e)) d hd refl refl refl
            (length rest) _ (round_failed e _ t r out (ap (invoke c stage) hd ∙ h) f))
      | inr f ↦
          rw
            (
              f,
              round_on e (record { id = ident; index = i; stage = stage; rest = rest }) t r out
                  (ap (invoke c stage) hd ∙ h) f,
            )
            (EndsAs-cons _ _ stage _ (k r out e he hr hf))
    ]

  -- From a round that begins, to the end of the run.
  rounds-EndsAs :
      (rest : List Stage) (e : Engine) (i t ident : ℕ) (stage : Stage) (d : StageData)
      → e.execution_id ≡ ident
      → e.run.status ≡ running
      → e.current_output ≡ some d
      → IsFresh e.run.completed_stages (stage ∷ rest)
      → EndsAs
          (rounds c
            (length (stage ∷ rest))
            id
            now
            (asleep e (record { id = ident; index = i; stage = stage; rest = rest }) t))
          e.run.completed_stages
          (run_stages c (stage ∷ rest) d)
  unfolding rounds run_stages advance finish go_to_sleep loop_completed record_result
  rounds-EndsAs [] e i t ident stage d he hr hd hf =
      ends_after ident i stage d [] e t
        (λ r out e' _ _ _. record {
          threads = refl;
          status = refl;
          stages = sym (append-nil _);
          output = refl;
        })
        he hr hd hf (c.handlers stage d) refl
  rounds-EndsAs (s ∷ rest) e i t ident stage d he hr hd hf =
      ends_after ident i stage d (s ∷ rest) e t
        (λ r out e' he' hr' hf'.
          let fresh = IsFresh-concat e'.run.completed_stages stage (s ∷ rest) hf'.1 hf'.2 in
          rw (advance_fresh ident (suc i) s rest now (completes stage r out e') he' hr' fresh.0)
            (rounds-EndsAs rest _ (suc i) _ ident s out he' hr' refl fresh))
        he hr hd hf (c.handlers stage d) refl

  abbrev pub first_loop : Engine → Loop
  first_loop e = record {
    id = e.execution_id;
    index = 0;
    stage = extraction;
    rest = normalization ∷ identity_matching ∷ graph_build ∷ scheduling ∷ [];
  }

  -- `start` up to its first `await`.
  abbrev pub entered : Engine → System
  entered e = asleep (go_to_sleep (first_loop e) e) (first_loop e) e.timers

  pub start_lem :
      (s : System) (d : StageData)
      → s.threads ≡ []
      → s.engine.run.status ≢ running
      → s.engine.run.completed_stages ≡ []
      → (step c (calls (start d)) id now s).0 ≡ entered (started d now s.engine)
  unfolding step start_run started execute_remaining advance
  start_lem s d ht hr hc = ground arith

  entered-EndsAs :
      (e : Engine) (d : StageData)
      → e.run.status ≡ running
      → e.current_output ≡ some d
      → e.run.completed_stages ≡ []
      → EndsAs (rounds c (length stages_order) id now (entered e)) [] (run_stages c stages_order d)
  unfolding go_to_sleep
  entered-EndsAs e d hr hd hc =
      subst
        (λ xs.
          EndsAs (rounds c (length stages_order) id now (entered e)) xs
            (run_stages c stages_order d))
        hc
        (rounds-EndsAs (first_loop e).rest (go_to_sleep (first_loop e) e) 0 e.timers e.execution_id
          extraction d refl hr hd (rw hc (ground arith)))

-- `start` on an engine with no completed stage and nothing under way, followed by as many
-- undisturbed rounds as there are stages, ends: no thread is left, the stages that completed are
-- those of the specification, in order, each run on the output of the one before it, and the
-- status says whether a handler threw or reported a failure.
pub start-EndsAs :
    (c : Config) (id now : String) (s : System) (d : StageData)
    → s.threads ≡ []
    → s.engine.run.status ≢ running
    → s.engine.run.completed_stages ≡ []
    → EndsAs
        (rounds c (length stages_order) id now (step c (calls (start d)) id now s).0)
        []
        (run_stages c stages_order d)
unfolding started
start-EndsAs c id now s d ht hr hc =
    rw (start_lem c id now s d ht hr hc)
      (entered-EndsAs c id now (started d now s.engine) d refl refl hc)
