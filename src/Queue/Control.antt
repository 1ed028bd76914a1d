-- ===== src/Queue/Control.antt =====
-- apps/backend/src/imports/import-queue.service.ts: the methods that the imports service calls
-- (permanent failure, recovery, cancellation, manual retry) and the reading ones.
use identity_access_graph.Prelude.{
  ℕ, String, Bool, List, [], ◌∷◌, map, Option, none, some, ◌==◌, nat_eq, string_eq, leb,
  if◌then◌else◌, ◌&&◌, filter, includes, length, end, stringify,
}
use identity_access_graph.Queue.Types.{
  JobStatus, queued, processing, retry, completed, failed, cancelled, job_status_eq, Job,
  QueueConfig, Store,
}
use identity_access_graph.Queue.Jobs.{
  record_event, update, save_job, job_file, Failure, structured_error, enqueue, oldest,
}

unfoldable pub fail_permanent : Job → Failure → String → ℕ → Store → Store
unfolding structured_error
fail_permanent job error event now s =
    let detail = structured_error error in
    record_event job.import_id event (job_file job detail) now (
      update job.id
        (λ j. record j {
          status = failed;
          error = some (stringify detail);
          locked_at = none;
          locked_by = none;
          completed_at = some now;
        })
        s)

abbrev pub open_statuses : List JobStatus
open_statuses = queued ∷ retry ∷ processing ∷ []

unfoldable pub requeue_recovered : Job → ℕ → Store → Store
requeue_recovered job now s =
    if includes open_statuses job.status
    then record_event job.import_id "JOB_RECOVERED" (job_file job end) now (
        update job.id
          (λ j. record j {
            status = queued;
            locked_at = none;
            locked_by = none;
            next_attempt_at = now;
            completed_at = none;
          })
          s)
    else s

abbrev pub cancel_row : String → ℕ → Job → Job
cancel_row import_id now j =
    if j.import_id == import_id && includes open_statuses j.status
    then record j {
      status = cancelled;
      completed_at = some now;
      locked_at = none;
      locked_by = none;
    }
    else j

unfoldable pub cancel : String → ℕ → Store → Store
cancel import_id now s =
    record_event import_id "IMPORT_CANCELLED" end now
      (record s { jobs = map (cancel_row import_id now) s.jobs })

-- `findOne({ where: { importId, fileId }, order: { createdAt: 'DESC' } })`.
abbrev pub newer : Job → Option Job → Job
newer j none = j
newer j (some k) = if leb k.created_at j.created_at then j else k

abbrev pub newest : (Job → Bool) → List Job → Option Job
newest p [] = none
newest p (j ∷ js) = let rest = newest p js in if p j then some (newer j rest) else rest

abbrev pub is_of : String → String → Job → Bool
is_of import_id file_id j = j.import_id == import_id && j.file_id == file_id

abbrev pub retried : ℕ → Job → Job
retried now j = record j {
  status = queued;
  attempts = 0;
  error = none;
  next_attempt_at = now;
  completed_at = none;
}

module _ (c : QueueConfig) where
  abbrev pub retry_found : Option Job → String → String → String → ℕ → Store → Job × Store
  retry_found none id import_id file_id now s = enqueue c id import_id file_id now s
  retry_found (some j) id import_id file_id now s =
      let job = retried now j in
      (
        job,
        record_event import_id "JOB_MANUALLY_RETRIED" (job_file job end) now
            (record s { jobs = save_job job s.jobs }),
      )

  unfoldable pub retry_job : String → String → String → ℕ → Store → Job × Store
  retry_job id import_id file_id now s =
      retry_found (newest (is_of import_id file_id) s.jobs) id import_id file_id now s

-- `countBy({ status })`.
abbrev pub count_by : JobStatus → List Job → ℕ
count_by st js = length (filter (λ j. j.status == st) js)

abbrev pub all_statuses : List JobStatus
all_statuses = queued ∷ processing ∷ retry ∷ completed ∷ failed ∷ cancelled ∷ []

abbrev oldest_queued : ℕ → List Job → Option ℕ
oldest_queued now js = created (oldest (λ j. j.status == queued && leb j.next_attempt_at now) js)
  where
    created : Option Job → Option ℕ
    created none = none
    created (some j) = some j.created_at

-- The counts by status, and when the oldest job that waits for a worker was created.
unfoldable pub stats : ℕ → Store → List (JobStatus × ℕ) × Option ℕ
stats now s = (map (λ st. (st, count_by st s.jobs)) all_statuses, oldest_queued now s.jobs)
