-- ===== src/Queue/Jobs.antt =====
-- apps/backend/src/imports/import-queue.service.ts: `ImportQueueService` as functions on the tables.
--
-- `now` is the time of the call and `id` a fresh `randomUUID()`. A call is one step: what it awaits
-- in between are statements on the tables, of which only `fail` and
-- `retry` read before they write.
use identity_access_graph.Prelude.{
  ℕ, ◌+◌, ◌-◌, ◌*◌, ◌^◌, max, String, Bool, false, not, ◌&&◌, ◌||◌, List, [], ◌∷◌, ◌++◌, Option,
  none, some, ◌==◌, nat_eq, string_eq, ltb, leb, if◌then◌else◌, includes, find, Object, field, end,
  str, num, any,
}
use identity_access_graph.Queue.Types.{
  queued, processing, retry, completed, failed, cancelled, job_status_eq, Job, QueueConfig, Store,
}

-- `audit.save`, by the actor `system`.
abbrev pub record_event : String → String → Object → ℕ → Store → Store
record_event import_id event details now s = record s {
  audit =
      s.audit
      ++ record {
        import_id = import_id;
        event = event;
        details = details;
        actor = "system";
        created_at = now;
      }
        ∷ [];
}

abbrev pub update_jobs : String → (Job → Job) → List Job → List Job
update_jobs id f [] = []
update_jobs id f (j ∷ js) = (if j.id == id then f j else j) ∷ update_jobs id f js

-- `jobs.update(id, …)`: nothing, where no row has the key.
abbrev pub update : String → (Job → Job) → Store → Store
update id f s = record s { jobs = update_jobs id f s.jobs }

abbrev pub find_job : String → List Job → Option Job
find_job id js = find (λ j. j.id == id) js

-- `jobs.save(job)`: the row of this key is written over, or there is a new one.
abbrev pub save_job : Job → List Job → List Job
save_job job js =
    if any (λ j. j.id == job.id) js then update_jobs job.id (λ j. job) js else js ++ job ∷ []

abbrev pub job_file : Job → Object → Object
job_file job rest = field "jobId" (str job.id) (field "fileId" (str job.file_id) rest)

-- `structuredImportError`: the code and the message of an `ImportSourceError`, the message of
-- another `Error`, or a value that is no error.
pub data Failure : Type 0 where
  source_error : String → String → Failure
  an_error : String → Failure
  no_error : Failure

unfoldable pub structured_error : Failure → Object
structured_error (source_error code message) =
    field "code" (str code) (field "message" (str message) end)
structured_error (an_error message) =
    field "code" (str "IMPORT_PROCESSING_FAILED") (field "message" (str message) end)
structured_error no_error =
    field "code" (str "IMPORT_PROCESSING_FAILED")
      (field "message" (str "Import processing failed.") end)

-- `orderBy('job.created_at', 'ASC').getOne()`, over the rows that `p` selects.
abbrev pub older : Job → Option Job → Job
older j none = j
older j (some k) = if leb j.created_at k.created_at then j else k

abbrev pub oldest : (Job → Bool) → List Job → Option Job
oldest p [] = none
oldest p (j ∷ js) = let rest = oldest p js in if p j then some (older j rest) else rest

abbrev pub claimed : String → ℕ → Job → Job
claimed worker now j = record j {
  status = processing;
  locked_by = some worker;
  locked_at = some now;
  attempts = j.attempts + 1;
  error = none;
}

unfoldable pub checkpoint_job : String → Object → ℕ → Store → Store
checkpoint_job id checkpoint now s =
    update id (λ j. record j { checkpoint = checkpoint; locked_at = some now }) s

unfoldable pub complete : Job → ℕ → Store → Store
complete job now s =
    record_event job.import_id "JOB_COMPLETED"
      (job_file job (field "attempts" (num job.attempts) end)) now
      (update job.id
        (λ j. record j {
          status = completed;
          completed_at = some now;
          locked_at = none;
          locked_by = none;
          error = none;
        })
        s)

abbrev pub is_cancelled : Option Job → Bool
is_cancelled none = false
is_cancelled (some j) = j.status == cancelled

abbrev pub claim_job : String → ℕ → Option Job → Store → Option Job × Store
claim_job worker now none s = (none, s)
claim_job worker now (some j) s =
    let job = claimed worker now j in (some job, record s { jobs = save_job job s.jobs })

module _ (c : QueueConfig) where
  unfoldable pub new_job : String → String → String → ℕ → Job
  new_job id import_id file_id now = record {
    id = id;
    import_id = import_id;
    file_id = file_id;
    status = queued;
    attempts = 0;
    max_attempts = c.max_job_attempts;
    checkpoint = end;
    error = none;
    locked_by = none;
    locked_at = none;
    next_attempt_at = now;
    created_at = now;
    completed_at = none;
  }

  unfoldable pub enqueue : String → String → String → ℕ → Store → Job × Store
  unfolding new_job
  enqueue id import_id file_id now s =
      let job = new_job id import_id file_id now in
      (
        job,
        record_event import_id "JOB_QUEUED" (job_file job end) now
            (record s { jobs = save_job job s.jobs }),
      )

  -- A lease ends after the longer of the two timeouts.
  abbrev pub lease : ℕ
  lease = max c.worker_lease_ms c.stale_job_timeout_ms

  -- `locked_at < expired`, which a row without the time does not satisfy.
  abbrev pub expired_at : ℕ → Option ℕ → Bool
  expired_at now none = false
  expired_at now (some t) = ltb (t + lease) now

  abbrev pub is_available : ℕ → Job → Bool
  is_available now j =
      ((j.status == queued || j.status == retry) && leb j.next_attempt_at now)
      || (j.status == processing && expired_at now j.locked_at)

  -- The rows the query reads: those that no other transaction holds (`skip_locked`).
  abbrev pub is_claimable : List String → ℕ → Job → Bool
  is_claimable held now j = not (includes held j.id) && is_available now j

  unfoldable pub claim : String → List String → ℕ → Store → Option Job × Store
  claim worker held now s = claim_job worker now (oldest (is_claimable held now) s.jobs) s

  abbrev pub retry_delay : Job → ℕ
  retry_delay job = c.retry_base_delay_ms * 2 ^ (job.attempts - 1)

  abbrev pub failed_row : Job → String → ℕ → Job → Job
  failed_row job message now j =
      let again = ltb job.attempts job.max_attempts in
      record j {
        status = if again then retry else failed;
        error = some message;
        locked_at = none;
        locked_by = none;
        next_attempt_at = now + retry_delay job;
        completed_at = if again then none else some now;
      }

  unfoldable pub fail : Job → String → ℕ → Store → Store
  fail job message now s =
      let again = ltb job.attempts job.max_attempts in
      if is_cancelled (find_job job.id s.jobs)
      then s
      else record_event job.import_id (if again then "JOB_RETRY_SCHEDULED" else "JOB_FAILED")
          (job_file job (
            field "attempts" (num job.attempts) (
              field "error" (str message)
                (field "delayMs" (num (if again then retry_delay job else 0)) end))))
          now (update job.id (failed_row job message now) s)
