-- ===== src/Pipeline/Schedule/Reachable.antt =====
-- What holds of every engine that a caller of the schedule can see.
use identity_access_graph.Prelude.{
  String, ◌≡◌, refl, sym, ap, ◌∙◌, List, [], ◌∷◌, ◌++◌, inl, inr, length, ◌≤◌, arith,
}
use identity_access_graph.Pipeline.Types.{stages_order, completed, Stage}
use identity_access_graph.Pipeline.Engine.{Engine, Thread, System, Config, new_engine}
use identity_access_graph.Pipeline.Step.{Event, calls, wakes, settles, step}
use identity_access_graph.Pipeline.Schedule.{ThreadsFit, SystemInv, Allowed, apply_stages}
use identity_access_graph.Pipeline.Schedule.Resumptions.{wakes-Inv, settles-Inv}
use identity_access_graph.Pipeline.Schedule.Calls.{calls-Inv}

-- The systems that allowed events lead to, from a new engine.
pub data Reach (c : Config) : System → Type 0 where
  new : (id : String) → Reach c (record { engine = new_engine id; threads = [] })
  next :
      {s : System}
      → Reach c s
      → (ev : Event) (id now : String) → Allowed s ev
      → Reach c (step c ev id now s).0

step-Inv :
    (c : Config) (s : System) (ev : Event) (id now : String)
    → Allowed s ev
    → SystemInv c s
    → SystemInv c (step c ev id now s).0
step-Inv c s (calls m) id now a v = calls-Inv c id now m s.engine s.threads a v
step-Inv c s (wakes k) id now a v = wakes-Inv c id now k s.engine s.threads v
step-Inv c s (settles k t) id now a v = settles-Inv c id now k t s.engine s.threads v

pub Reach-Inv : (c : Config) {s : System} → Reach c s → SystemInv c s
unfolding new_engine apply_stages
Reach-Inv c (new id) = record {
  rest = stages_order;
  split = refl;
  output = refl;
  finished = λ f. cc f;
  threads = λ a. elim a [ inl f ↦ cc f | inr f ↦ cc f ];
}
Reach-Inv c (next {s} r ev id now a) = step-Inv c s ev id now a (Reach-Inv c r)

few_threads :
    (c : Config) (e : Engine) (rest : List Stage) (ts : List Thread)
    → ThreadsFit c e rest ts
    → length ts ≤ 1
few_threads c e rest [] f = omega arith
few_threads c e rest (t ∷ []) f = omega arith
few_threads c e rest (t ∷ u ∷ ts) f = absurd f

-- Of an engine since it was made, if it was never stepped back or restored, if `start` and `seed`
-- came only with no activation under way and no stage completed, `resume` and `replay` only with no
-- activation under way, and `reset` only while no handler ran, whatever the pauses, single steps and
-- timeouts: at most one activation is under way, the completed stages are the first ones of the
-- order, each once, and the data at hand are what the handlers of these stages, applied in order,
-- make of the initial input.
pub Reach-consistent :
    (c : Config) {s : System}
    → Reach c s
    → (length s.threads ≤ 1)
      × ((rest : List Stage) × (s.engine.run.completed_stages ++ rest ≡ stages_order))
      × (apply_stages c s.engine.run.completed_stages s.engine.initial_input
          ≡ s.engine.current_output)
Reach-consistent c {s} r =
    let v = Reach-Inv c r in
    (few_threads c s.engine v.rest s.threads v.threads, (v.rest, v.split), v.output)

-- Of an engine since it was made, if it was never stepped back or restored, if `start` and `seed`
-- came only with no activation under way and no stage completed, `resume` and `replay` only with no
-- activation under way, and `reset` only while no handler ran: if it says that it is completed, then
-- it has run every stage, and it holds what the handlers, applied in order, make of the initial input.
pub Reach-completed :
    (c : Config) {s : System}
    → Reach c s
    → s.engine.run.status ≡ completed
    → (s.engine.run.completed_stages ≡ stages_order)
      × (s.engine.current_output ≡ apply_stages c stages_order s.engine.initial_input)
Reach-completed c {s} r f =
    let v = Reach-Inv c r in
    (
      v.finished f,
      sym v.output ∙ ap (λ xs. apply_stages c xs s.engine.initial_input) (v.finished f),
    )
