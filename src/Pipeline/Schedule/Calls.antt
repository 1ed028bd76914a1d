-- ===== src/Pipeline/Schedule/Calls.antt =====
-- The calls that a caller may make keep the invariant.
use identity_access_graph.Prelude.{
  String, ◌≡◌, refl, sym, ap, ◌∙◌, true, not, ◌&&◌, List, [], ◌∷◌, ◌++◌, Option, some, none, inl,
  inr, head?, ◌==◌, length, Bool-cases, subst, ==_refl, nat_eq, get_elem?, get_elem?-length,
}
use identity_access_graph.Pipeline.Types.{
  Stage, StageData, stages_order, running, paused, completed, idle, status_eq, stage_eq,
}
use identity_access_graph.Pipeline.Engine.{
  Engine, Thread, sleeping, racing, stepping, System, Config, invoke, initial_run,
  execute_remaining,
}
use identity_access_graph.Pipeline.Methods.{
  Method, start, pause, resume, seed, next_stage, previous_stage, replay, reset, restore, start_run,
  pause_run, resume_run, resume_at, seed_data, next_run, next_at, next_started, reset_run,
  replay_run, replay_from, started, set_status,
}
use identity_access_graph.Pipeline.Step.{calls, step}
use identity_access_graph.Pipeline.Schedule.{
  Inv, SystemInv, ThreadsFit, apply_stages, IsActive, Allowed, IsQuiet,
}
use identity_access_graph.Pipeline.Schedule.Order.{split_head, index_of-split, drop-split}
use identity_access_graph.Pipeline.Schedule.Rounds.{advance-Inv}

busy :
    (e : Engine)
    → IsActive e.run.status
    → (not (e.run.status == idle) && not (e.run.status == completed)) ≡ true
busy e (inl r) = rw r
busy e (inr p) = rw p

module _ (c : Config) (id now : String) where
  abbrev at_rest : Engine → System
  at_rest e = record { engine = e; threads = [] }

  start-Inv :
      (e : Engine) (d : StageData)
      → Inv c e []
      → e.run.completed_stages ≡ []
      → SystemInv c (start_run d now (at_rest e)).0
  unfolding start_run started execute_remaining apply_stages
  start-Inv e d v h = elim (Bool-cases (e.run.status == running)) [
    | inl r ↦ rw r v
    | inr r ↦ rw r (
        advance-Inv c _ 0 stages_order now (started d now e) (record {
          split = ap (λ xs. xs ++ stages_order) h;
          output = ap (λ xs. apply_stages c xs (some d)) h;
          same_id = refl;
          same_index = sym (ap length h);
          active = inl refl;
        }))
  ]

  paused-Inv :
      (e : Engine) (ts : List Thread)
      → Inv c e ts
      → e.run.status ≡ running
      → Inv c (set_status paused e) ts
  paused-Inv e ts v r = record {
    rest = v.rest;
    split = v.split;
    output = v.output;
    finished = λ f. cc f;
    threads = fit ts v.threads;
  }
    where
      fit :
          (ts : List Thread)
          → ThreadsFit c e v.rest ts
          → ThreadsFit c (set_status paused e) v.rest ts
      fit [] f = λ _. f (inl r)
      fit (sleeping l t ∷ []) f = ((f.0.0, f.0.1, f.0.2, inr refl), f.1)
      fit (racing l o ∷ []) f = ((f.0.0, f.0.1, f.0.2, inr refl), f.1)
      fit (stepping s i o ∷ []) f = (f.0, f.1, f.2, f.3, inr refl)
      fit (t ∷ u ∷ us) f = f

  pause-Inv :
      (e : Engine) (ts : List Thread)
      → Inv c e ts
      → SystemInv c (pause_run (record { engine = e; threads = ts })).0
  unfolding pause_run
  pause-Inv e ts v = elim (Bool-cases (e.run.status == running)) [
    | inl r ↦ rw r (paused-Inv e ts v ((status_eq.test_iff _ _).0 r))
    | inr r ↦ rw r v
  ]

  resume_at-Inv :
      (e : Engine) (stage : Option Stage)
      → Inv c e []
      → e.run.status ≡ paused
      → e.run.current_stage ≡ stage
      → SystemInv c (resume_at stage now (at_rest e)).0
  unfolding resume_at execute_remaining
  resume_at-Inv e none v h k = v
  resume_at-Inv e (some stage) v h k =
      let (ys, p) =
        split_head e.run.completed_stages stage v.rest (sym (v.threads (inr h)) ∙ k) v.split in
      rw (index_of-split e.run.completed_stages stage ys p) (
        rw (drop-split e.run.completed_stages stage ys p) (
          advance-Inv c _ (length e.run.completed_stages) (stage ∷ ys) now _ (record {
            split = p;
            output = v.output;
            same_id = refl;
            same_index = refl;
            active = inl refl;
          })))

  resume-Inv : (e : Engine) → Inv c e [] → SystemInv c (resume_run now (at_rest e)).0
  unfolding resume_run
  resume-Inv e v = elim (Bool-cases (e.run.status == paused)) [
    | inl p ↦ rw p (resume_at-Inv e e.run.current_stage v ((status_eq.test_iff _ _).0 p) refl)
    | inr p ↦ rw p v
  ]

  next_at-Inv :
      (e : Engine) (rest : List Stage) (input : Option StageData)
      → Inv c e []
      → e.run.completed_stages ++ rest ≡ stages_order
      → e.current_output ≡ input
      → SystemInv c (next_at c (head? rest) (length e.run.completed_stages) input now (at_rest e)).0
  unfolding next_at next_started
  next_at-Inv e [] input v p k = v
  next_at-Inv e (s ∷ ss) none v p k = record {
    rest = s ∷ ss;
    split = p;
    output = v.output;
    finished = λ f. cc f;
    threads = λ a. refl;
  }
  next_at-Inv e (s ∷ ss) (some d) v p k = record {
    rest = s ∷ ss;
    split = p;
    output = v.output;
    finished = λ f. cc f;
    threads = (refl, refl, ap (invoke c s) (sym k), refl, inl refl);
  }

  -- With a thread under way the status does not allow `nextStage`.
  next-Inv :
      (e : Engine) (ts : List Thread)
      → Inv c e ts
      → SystemInv c (next_run c now (record { engine = e; threads = ts })).0
  unfolding next_run
  next-Inv e [] v =
      elim (Bool-cases (not (e.run.status == idle) && not (e.run.status == completed))) [
        | inl r ↦ rw r v
        | inr r ↦ rw r (
            subst
              (λ o.
                SystemInv c
                  (next_at c o (length e.run.completed_stages) e.current_output now (at_rest e)).0)
              (sym next) (next_at-Inv e v.rest e.current_output v v.split refl))
      ]
    where
      next : get_elem? stages_order (length e.run.completed_stages) ≡ head? v.rest
      next =
          subst (λ xs. get_elem? xs (length e.run.completed_stages) ≡ head? v.rest) v.split
            (get_elem?-length e.run.completed_stages v.rest)
  next-Inv e (sleeping l t ∷ []) v = rw (busy e v.threads.0.3) v
  next-Inv e (racing l o ∷ []) v = rw (busy e v.threads.0.3) v
  next-Inv e (stepping s i o ∷ []) v = rw (busy e v.threads.4) v
  next-Inv e (t ∷ u ∷ ts) v = absurd v.threads

  reset_engine-Inv : (s : System) → (reset_run id s).threads ≡ [] → SystemInv c (reset_run id s)
  unfolding reset_run initial_run apply_stages
  reset_engine-Inv s h = record {
    rest = stages_order;
    split = refl;
    output = refl;
    finished = λ f. cc f;
    threads =
        subst (ThreadsFit c (reset_run id s).engine stages_order) (sym h)
          (λ a. elim a [ inl f ↦ cc f | inr f ↦ cc f ]);
  }

  -- The timer of a sleeping thread is the one that `reset` clears.
  reset-threads :
      (e : Engine) (ts : List Thread)
      → Inv c e ts
      → IsQuiet ts
      → (reset_run id (record { engine = e; threads = ts })).threads ≡ []
  unfolding reset_run
  reset-threads e [] v q = refl
  reset-threads e (sleeping l t ∷ []) v q = rw (v.threads.1, ==_refl t)
  reset-threads e (racing l o ∷ []) v q = absurd q
  reset-threads e (stepping s i o ∷ []) v q = absurd q
  reset-threads e (t ∷ u ∷ ts) v q = absurd v.threads

  replay_from-Inv :
      (e : Engine) (d : Option StageData)
      → Inv c e []
      → SystemInv c (replay_from d id now (at_rest e)).0
  unfolding replay_from
  replay_from-Inv e none v = v
  replay_from-Inv e (some d) v =
      let s = reset_run id (at_rest e) in
      start-Inv s.engine d (reset_engine-Inv (at_rest e) refl) refl

  replay-Inv : (e : Engine) → Inv c e [] → SystemInv c (replay_run id now (at_rest e)).0
  unfolding replay_run
  replay-Inv e v = elim (Bool-cases (length e.run.completed_stages == 0)) [
    | inl r ↦ rw r v
    | inr r ↦ rw r (replay_from-Inv e e.initial_input v)
  ]

  seed-Inv :
      (e : Engine) (d : StageData)
      → Inv c e []
      → e.run.completed_stages ≡ []
      → Inv c (seed_data d e) []
  unfolding seed_data apply_stages
  seed-Inv e d v h = record {
    rest = v.rest;
    split = v.split;
    output = ap (λ xs. apply_stages c xs (some d)) h;
    finished = v.finished;
    threads = v.threads;
  }

  -- Every call that is allowed keeps the invariant.
  pub calls-Inv :
      (m : Method) (e : Engine) (ts : List Thread)
      → Allowed (record { engine = e; threads = ts }) (calls m)
      → Inv c e ts
      → SystemInv c (step c (calls m) id now (record { engine = e; threads = ts })).0
  unfolding step
  calls-Inv (start d) e ts a v = rw a.0 (start-Inv e d (rw a.0 at v) a.1)
  calls-Inv pause e ts a v = pause-Inv e ts v
  calls-Inv resume e ts a v = rw a (resume-Inv e (rw a at v))
  calls-Inv (seed d) e ts a v = rw a.0 (seed-Inv e d (rw a.0 at v) a.1)
  calls-Inv next_stage e ts a v = next-Inv e ts v
  calls-Inv previous_stage e ts a v = absurd a
  calls-Inv replay e ts a v = rw a (replay-Inv e (rw a at v))
  calls-Inv reset e ts a v =
      reset_engine-Inv (record { engine = e; threads = ts }) (reset-threads e ts v a)
  calls-Inv (restore p) e ts a v = absurd a
