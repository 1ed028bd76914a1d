-- ===== src/Queue/Events.antt =====
-- The calls of `ImportQueueService` as events, and what sequences of them lead to.
use identity_access_graph.Prelude.{ℕ, String, List, [], ◌∷◌, Object}
use identity_access_graph.Queue.Types.{Job, QueueConfig, Store}
use identity_access_graph.Queue.Jobs.{Failure, enqueue, claim, checkpoint_job, complete, fail}
use identity_access_graph.Queue.Control.{fail_permanent, requeue_recovered, cancel, retry_job}

pub data Event : Type 0 where
  -- with the identifier of the new row
  enqueues : String → String → String → Event
  -- by a worker, while other transactions hold these rows
  claims : String → List String → Event
  checkpoints : String → Object → Event
  -- with the job as the worker holds it, which may be older than the row
  completes : Job → Event
  fails : Job → String → Event
  fails_permanently : Job → Failure → String → Event
  recovers : Job → Event
  cancels : String → Event
  retries : String → String → String → Event

module _ (c : QueueConfig) where
  unfoldable pub step : Event → ℕ → Store → Store
  step (enqueues id import_id file_id) now s = (enqueue c id import_id file_id now s).1
  step (claims worker held) now s = (claim c worker held now s).1
  step (checkpoints id checkpoint) now s = checkpoint_job id checkpoint now s
  step (completes job) now s = complete job now s
  step (fails job message) now s = fail c job message now s
  step (fails_permanently job error event) now s = fail_permanent job error event now s
  step (recovers job) now s = requeue_recovered job now s
  step (cancels import_id) now s = cancel import_id now s
  step (retries id import_id file_id) now s = (retry_job c id import_id file_id now s).1

  -- A sequence of calls, each with its time.
  abbrev pub steps : List (Event × ℕ) → Store → Store
  steps [] s = s
  steps ((ev, now) ∷ evs) s = steps evs (step ev now s)
