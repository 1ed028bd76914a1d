-- ===== src/Pipeline/Step.antt =====
-- apps/backend/src/pipeline/pipeline-engine.ts under an event loop: a method's call, or the
-- resumption of a thread that waits.
use identity_access_graph.Prelude.{
  ℕ, zero, suc, String, Bool, List, [], ◌∷◌, ◌++◌, Option, some, ok, throw,
}
use identity_access_graph.Prelude.{last?, get_elem?}
use identity_access_graph.Pipeline.Engine.{
  Thread, sleeping, racing, stepping, Reply, pending, a_snapshot, error, System, Config, suspend,
  invoke, race, Outcome,
}
use identity_access_graph.Pipeline.Types.{Stage}
use identity_access_graph.Pipeline.Methods.{Method, loop_settled, next_settled, call}

pub data Event : Type 0 where
  calls : Method → Event
  -- the timer of thread `k` fires
  wakes : ℕ → Event
  -- `runStage` of thread `k` settles, by its timeout if the test says so
  settles : ℕ → Bool → Event

abbrev remove_at {ℓ} : {A : Type ℓ} → ℕ → List A → List A
remove_at k [] = []
remove_at zero (x ∷ xs) = xs
remove_at (suc k) (x ∷ xs) = x ∷ remove_at k xs

module _ (c : Config) where
  -- Behind `await this.delay`: the handler is called with the data of this moment.
  unfoldable pub wake : Option Thread → List Thread → System → System × Reply
  wake (some (sleeping l t)) others s = (
    record s { threads = others ++ racing l (invoke c l.stage s.engine.current_output) ∷ [] },
    pending,
  )
  wake _ others s = (s, pending)

  abbrev settle_next : Stage → ℕ → Outcome → String → List Thread → System → System × Reply
  settle_next stage i (throw message) now others s = (record s { threads = others }, error message)
  settle_next stage i (ok (r, output)) now others s =
      let e = next_settled stage i r output now s.engine in
      (record { engine = e; threads = others }, a_snapshot (last? e.snapshots))

  -- Behind `await this.runStage`.
  unfoldable pub settle : Option Thread → Bool → String → List Thread → System → System × Reply
  settle (some (racing l o)) timed_out now others s =
      suspend others (loop_settled l (race c timed_out l.stage o) now s.engine)
  settle (some (stepping stage i o)) timed_out now others s =
      settle_next stage i (race c timed_out stage o) now others s
  settle _ timed_out now others s = (s, pending)

  -- An event, with a fresh identifier and the time.
  unfoldable pub step : Event → String → String → System → System × Reply
  unfolding call wake settle
  step (calls m) id now s = call c m id now s
  step (wakes k) id now s = wake (get_elem? s.threads k) (remove_at k s.threads) s
  step (settles k timed_out) id now s =
      settle (get_elem? s.threads k) timed_out now (remove_at k s.threads) s
