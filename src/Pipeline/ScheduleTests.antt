-- ===== src/Pipeline/ScheduleTests.antt =====
-- A run of the schedule, and the theorems about the schedule at it.
use identity_access_graph.Prelude.{ℕ, zero, suc, ◌≡◌, refl, false, List, [], ◌++◌, length, ◌≤◌}
use identity_access_graph.Pipeline.Types.{Stage, paused, completed, stages_order}
use identity_access_graph.Pipeline.Engine.{
  System, new_engine, execute_remaining, advance, go_to_sleep, finish,
}
use identity_access_graph.Pipeline.Methods.{
  start, pause, resume, started, loop_settled, loop_completed, record_result,
}
use identity_access_graph.Pipeline.Step.{calls, wakes, settles, step}
use identity_access_graph.Pipeline.Run.{rounds}
use identity_access_graph.Pipeline.Schedule.{apply_stages}
use identity_access_graph.Pipeline.Schedule.Reachable.{
  Reach, new, next, Reach-consistent, Reach-completed,
}
use identity_access_graph.Pipeline.Samples.{quick, sound}

rounds-Reach : (n : ℕ) (s : System) → Reach quick s → Reach quick (rounds quick n "id" "now" s)
unfolding rounds
rounds-Reach zero s r = r
rounds-Reach (suc n) s r =
    rounds-Reach n _ (next (next r (wakes 0) "id" "now" tt) (settles 0 false) "id" "now" tt)

-- `start` on a new engine, a pause, a resumption when the pause has taken effect, and the rest.
begun : System
begun =
    (step quick (calls (start sound)) "id" "now"
      (record { engine = new_engine "run"; threads = [] })).0

held : System
unfolding begun
held = rounds quick 1 "id" "now" (step quick (calls pause) "id" "now" begun).0

resumed : System
unfolding held
resumed = rounds quick 4 "id" "now" (step quick (calls resume) "id" "now" held).0

begun-Reach : Reach quick begun
unfolding begun new_engine
begun-Reach = next (new "run") (calls (start sound)) "id" "now" (refl, refl)

held-Reach : Reach quick held
unfolding held
held-Reach = rounds-Reach 1 _ (next begun-Reach (calls pause) "id" "now" tt)

held_paused : (held.threads ≡ []) × (held.engine.run.status ≡ paused)
unfolding held step rounds execute_remaining advance started loop_settled go_to_sleep new_engine
    loop_completed record_result finish
held_paused = (refl, refl)

resumed-Reach : Reach quick resumed
unfolding resumed
resumed-Reach = rounds-Reach 4 _ (next held-Reach (calls resume) "id" "now" held_paused.0)

resumed_completed : resumed.engine.run.status ≡ completed
unfolding resumed step rounds execute_remaining advance started loop_settled go_to_sleep new_engine
    loop_completed record_result finish
resumed_completed = refl

Reach-completed_example :
    (resumed.engine.run.completed_stages ≡ stages_order)
    × (resumed.engine.current_output ≡ apply_stages quick stages_order resumed.engine.initial_input)
Reach-completed_example = Reach-completed quick resumed-Reach resumed_completed

Reach-consistent_example :
    (length held.threads ≤ 1)
    × ((rest : List Stage) × (held.engine.run.completed_stages ++ rest ≡ stages_order))
    × (apply_stages quick held.engine.run.completed_stages held.engine.initial_input
        ≡ held.engine.current_output)
Reach-consistent_example = Reach-consistent quick held-Reach
