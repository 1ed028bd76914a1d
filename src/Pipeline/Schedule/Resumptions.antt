-- ===== src/Pipeline/Schedule/Resumptions.antt =====
-- A thread that goes on, by its timer or by the end of `runStage`, keeps the invariant.
use identity_access_graph.Prelude.{
  ℕ, zero, suc, String, refl, sym, ◌∙◌, Bool, true, false, List, [], ◌∷◌, some, ok, throw, inl, inr,
}
use identity_access_graph.Pipeline.Types.{Stage}
use identity_access_graph.Pipeline.Engine.{
  Engine, Loop, Thread, sleeping, racing, stepping, Config, invoke, Outcome,
}
use identity_access_graph.Pipeline.Step.{wakes, settles, step, settle}
use identity_access_graph.Pipeline.Schedule.{Inv, SystemInv}
use identity_access_graph.Pipeline.Schedule.Order.{split_head}
use identity_access_graph.Pipeline.Schedule.Rounds.{settled-Inv, stepped-Inv}

module _ (c : Config) (id now : String) where
  pub wakes-Inv :
      (k : ℕ) (e : Engine) (ts : List Thread)
      → Inv c e ts
      → SystemInv c (step c (wakes k) id now (record { engine = e; threads = ts })).0
  unfolding step
  wakes-Inv k e [] v = v
  wakes-Inv zero e (sleeping l t ∷ []) v = record {
    rest = v.rest;
    split = v.split;
    output = v.output;
    finished = v.finished;
    threads = (v.threads.0, refl);
  }
  wakes-Inv zero e (racing l o ∷ []) v = v
  wakes-Inv zero e (stepping s i o ∷ []) v = v
  wakes-Inv (suc k) e (t ∷ []) v = v
  wakes-Inv k e (t ∷ u ∷ ts) v = absurd v.threads

  -- `nextStage` whose handler throws, or is too late: the status stays.
  rejected-Inv :
      (e : Engine) (s : Stage) (i : ℕ) (o : Outcome) → Inv c e (stepping s i o ∷ []) → Inv c e []
  rejected-Inv e s i o v = record {
    rest = v.rest;
    split = v.split;
    output = v.output;
    finished = v.finished;
    threads = λ a. v.threads.3 ∙ sym v.threads.0;
  }

  next_settles-Inv :
      (e : Engine) (s : Stage) (i : ℕ) (o : Outcome) (timed_out : Bool)
      → Inv c e (stepping s i o ∷ [])
      → SystemInv c
          (settle c
            (some (stepping s i o))
            timed_out
            now
            []
            (record { engine = e; threads = stepping s i o ∷ [] })).0
  unfolding settle
  next_settles-Inv e s i o true v = rejected-Inv e s i o v
  next_settles-Inv e s i (throw m) false v = rejected-Inv e s i (throw m) v
  next_settles-Inv e s i (ok (r, out)) false v =
      let (ys, p) = split_head e.run.completed_stages s v.rest v.threads.0 v.split in
      stepped-Inv c now e s ys i p v.output r out (sym v.threads.2)

  handled :
      (e : Engine) (l : Loop) (o : Outcome)
      → Inv c e (racing l o ∷ [])
      → Inv c e (racing l (invoke c l.stage e.current_output) ∷ [])
  handled e l o v = record {
    rest = v.rest;
    split = v.split;
    output = v.output;
    finished = v.finished;
    threads = (v.threads.0, refl);
  }

  loop_settles-Inv :
      (e : Engine) (l : Loop) (o : Outcome) (timed_out : Bool)
      → Inv c e (racing l o ∷ [])
      → SystemInv c
          (settle c
            (some (racing l o))
            timed_out
            now
            []
            (record { engine = e; threads = racing l o ∷ [] })).0
  unfolding settle
  loop_settles-Inv e l o true v = settled-Inv c now e l (handled e l o v) _ (inr (_, refl))
  loop_settles-Inv e l o false v = settled-Inv c now e l (handled e l o v) o (inl v.threads.1)

  pub settles-Inv :
      (k : ℕ) (timed_out : Bool) (e : Engine) (ts : List Thread)
      → Inv c e ts
      → SystemInv c (step c (settles k timed_out) id now (record { engine = e; threads = ts })).0
  unfolding step
  settles-Inv k t e [] v = v
  settles-Inv zero t e (sleeping l n ∷ []) v = v
  settles-Inv zero t e (racing l o ∷ []) v = loop_settles-Inv e l o t v
  settles-Inv zero t e (stepping s i o ∷ []) v = next_settles-Inv e s i o t v
  settles-Inv (suc k) t e (u ∷ []) v = v
  settles-Inv k t e (u ∷ w ∷ ts) v = absurd v.threads
