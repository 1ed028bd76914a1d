-- ===== src/Worker/Ticks.antt =====
-- apps/backend/src/imports/import-worker.service.ts: `tick` and `runJob` of `ImportWorkerService`
-- under an event loop.
--
-- `tick` waits for `queue.claim` in each round of its loop, and any number of activations may wait
-- there: the timer starts one, and the end of a job starts one. What `processQueuedJob` does is a
-- parameter: its outcome comes with the event.
use identity_access_graph.Prelude.{
  ℕ, zero, suc, ◌-◌, String, List, [], ◌∷◌, ◌++◌, Option, none, some, if◌then◌else◌, ltb,
}
use identity_access_graph.Queue.Types.{Job, QueueConfig, Store}
use identity_access_graph.Queue.Jobs.{Failure, source_error, an_error, no_error, complete, fail}
use identity_access_graph.Queue.Control.{fail_permanent}

pub record Worker : Type 0 where
  pub id : String
  pub active : ℕ
  pub last_heartbeat : Option ℕ
  pub last_error : Option String
  -- the activations of `tick` that wait for `queue.claim`
  pub waiting : ℕ
  -- the jobs of the activations of `runJob`
  pub running : List Job

pub record WorkerConfig : Type 0 where
  pub concurrency : ℕ
  pub queue : QueueConfig

abbrev pub remove_job : ℕ → List Job → List Job
remove_job k [] = []
remove_job zero (j ∷ js) = js
remove_job (suc k) (j ∷ js) = j ∷ remove_job k js

-- `structuredImportError(error).message`.
abbrev pub failure_message : Failure → String
failure_message (source_error code message) = message
failure_message (an_error message) = message
failure_message no_error = "Import processing failed."

module _ (c : WorkerConfig) where
  -- The test of the loop, and `await this.queue.claim` if it holds.
  unfoldable pub loop_round : Worker → Worker
  loop_round w = if ltb w.active c.concurrency then record w { waiting = suc w.waiting } else w

  unfoldable pub tick : ℕ → Worker → Worker
  unfolding loop_round
  tick now w = loop_round (record w { last_heartbeat = some now })

  -- Behind the `await`: with a job the loop goes on.
  unfoldable pub claim_settled : Option Job → Worker → Worker
  unfolding loop_round
  claim_settled none w = record w { waiting = w.waiting - 1 }
  claim_settled (some job) w =
      loop_round (record w {
        waiting = w.waiting - 1;
        active = suc w.active;
        running = w.running ++ job ∷ [];
      })

  -- `queue.claim` throws, and the `catch` gives `null`.
  unfoldable pub claim_failed : String → Worker → Worker
  claim_failed message w = record w { waiting = w.waiting - 1; last_error = some message }

  -- What the `try` and the `catch` of `runJob` do to the queue, where the statements succeed.
  unfoldable pub run_job : Job → Option Failure → ℕ → Store → Store
  run_job job none now s = complete job now s
  run_job job (some (source_error code message)) now s =
      fail_permanent job (source_error code message) "JOB_FAILED" now s
  run_job job (some e) now s = fail c.queue job (failure_message e) now s

  abbrev error_after : Option Failure → Option String → Option String
  error_after none old = old
  error_after (some e) old = some (failure_message e)

  -- The `finally` of `runJob`: a slot is free, and the loop is started again.
  unfoldable pub job_settled : ℕ → Option Failure → ℕ → Worker → Worker
  unfolding tick
  job_settled k outcome now w = tick now (record w {
    active = w.active - 1;
    running = remove_job k w.running;
    last_error = error_after outcome w.last_error;
  })
