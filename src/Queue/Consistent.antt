-- ===== src/Queue/Consistent.antt =====
-- What the rows of apps/backend/src/imports/import-queue.service.ts satisfy after any sequence of
-- calls.
use identity_access_graph.Prelude.{
  ℕ, String, ◌≡◌, refl, Bool, true, false, List, [], ◌∷◌, Option, none, some, inl, inr, ◌==◌, ◌∙◌,
  ◌&&◌, is_some, string_eq, nat_eq, Bool-cases, includes, ltb, All, arith,
}
use identity_access_graph.Queue.Types.{
  JobStatus, processing, completed, failed, cancelled, job_status_eq, Job, QueueConfig, Store,
}
use identity_access_graph.Queue.Jobs.{
  new_job, enqueue, claim, claim_job, is_claimable, oldest, checkpoint_job, complete, fail,
  is_cancelled, find_job, failed_row,
}
use identity_access_graph.Queue.Control.{
  fail_permanent, requeue_recovered, cancel, cancel_row, retry_job, retry_found, newest, is_of,
  open_statuses,
}
use identity_access_graph.Queue.Events.{
  Event, enqueues, claims, checkpoints, completes, fails, fails_permanently, recovers, cancels,
  retries, step, steps,
}
use identity_access_graph.Queue.Rows.{update_jobs-All, save_job-All, map-All, oldest-Found, Found}

abbrev pub is_terminal : JobStatus → Bool
is_terminal completed = true
is_terminal failed = true
is_terminal cancelled = true
is_terminal _ = false

-- A job has a time of completion just if it has ended, and one that is worked on has a worker and
-- a time from which its lease counts.
abbrev pub IsConsistent : Job → Type 0
IsConsistent j =
    (is_some j.completed_at ≡ is_terminal j.status)
    × (j.status ≡ processing → (is_some j.locked_by ≡ true) × (is_some j.locked_at ≡ true))

module _ (c : QueueConfig) where
  claimable-open :
      (held : List String) (now : ℕ) (j : Job)
      → is_claimable c held now j ≡ true
      → is_terminal j.status ≡ false
  claimable-open held now j e = ground arith

  claim_job-IsConsistent :
      (worker : String) (held : List String) (now : ℕ) (s : Store) (o : Option Job)
      → Found IsConsistent (is_claimable c held now) o
      → All IsConsistent s.jobs
      → All IsConsistent (claim_job worker now o s).1.jobs
  claim_job-IsConsistent worker held now s none f a = a
  claim_job-IsConsistent worker held now s (some j) (p, e) a =
      save_job-All IsConsistent _ s.jobs (p.0 ∙ claimable-open held now j e, λ e. (refl, refl)) a

  retry_found-IsConsistent :
      (id import_id file_id : String) (now : ℕ) (s : Store) (o : Option Job)
      → All IsConsistent s.jobs
      → All IsConsistent (retry_found c o id import_id file_id now s).1.jobs
  unfolding enqueue new_job
  retry_found-IsConsistent id import_id file_id now s none a =
      save_job-All IsConsistent _ s.jobs (refl, λ e. cc e) a
  retry_found-IsConsistent id import_id file_id now s (some j) a =
      save_job-All IsConsistent _ s.jobs (refl, λ e. cc e) a

  failed_row-IsConsistent :
      (job : Job) (m : String) (now : ℕ) (j : Job) → IsConsistent (failed_row c job m now j)
  failed_row-IsConsistent job m now j = elim (Bool-cases (ltb job.attempts job.max_attempts)) [
    | inl e ↦ rw e (refl, λ i. cc i)
    | inr e ↦ rw e (refl, λ i. cc i)
  ]

  cancel_row-IsConsistent :
      (import_id : String) (now : ℕ) (j : Job)
      → IsConsistent j
      → IsConsistent (cancel_row import_id now j)
  cancel_row-IsConsistent i now j p =
      elim (Bool-cases (j.import_id == i && includes open_statuses j.status)) [
        | inl e ↦ rw e (refl, λ i. cc i)
        | inr e ↦ rw e p
      ]

  step-IsConsistent :
      (ev : Event) (now : ℕ) (s : Store)
      → All IsConsistent s.jobs
      → All IsConsistent (step c ev now s).jobs
  unfolding step enqueue new_job checkpoint_job complete fail fail_permanent requeue_recovered
      cancel claim retry_job
  step-IsConsistent (enqueues id i f) now s a =
      save_job-All IsConsistent _ s.jobs (refl, λ e. cc e) a
  step-IsConsistent (claims w held) now s a =
      claim_job-IsConsistent w held now s (oldest (is_claimable c held now) s.jobs)
        (oldest-Found IsConsistent (is_claimable c held now) s.jobs a) a
  step-IsConsistent (checkpoints id d) now s a =
      update_jobs-All IsConsistent id _ s.jobs (λ j i p. (p.0, λ e. ((p.1 e).0, refl))) a
  step-IsConsistent (completes job) now s a =
      update_jobs-All IsConsistent job.id _ s.jobs (λ j i p. (refl, λ e. cc e)) a
  step-IsConsistent (fails job m) now s a =
      elim (Bool-cases (is_cancelled (find_job job.id s.jobs))) [
        | inl e ↦ rw e a
        | inr e ↦ rw e (
            update_jobs-All IsConsistent job.id _ s.jobs
              (λ j i p. failed_row-IsConsistent job m now j) a)
      ]
  step-IsConsistent (fails_permanently job e n) now s a =
      update_jobs-All IsConsistent job.id _ s.jobs (λ j i p. (refl, λ e. cc e)) a
  step-IsConsistent (recovers job) now s a = elim (Bool-cases (includes open_statuses job.status)) [
    | inl e ↦ rw e (update_jobs-All IsConsistent job.id _ s.jobs (λ j i p. (refl, λ e. cc e)) a)
    | inr e ↦ rw e a
  ]
  step-IsConsistent (cancels i) now s a =
      map-All IsConsistent (cancel_row i now) s.jobs (cancel_row-IsConsistent i now) a
  step-IsConsistent (retries id i f) now s a =
      retry_found-IsConsistent id i f now s (newest (is_of i f) s.jobs) a

  -- After any sequence of calls, of any workers, with jobs as old as they like: a job has a time of
  -- completion just if it has ended, and one that is being processed has a worker and the time
  -- from which its lease counts.
  pub steps-IsConsistent :
      (evs : List (Event × ℕ)) (s : Store)
      → All IsConsistent s.jobs
      → All IsConsistent (steps c evs s).jobs
  steps-IsConsistent [] s a = a
  steps-IsConsistent ((ev, now) ∷ evs) s a =
      steps-IsConsistent evs (step c ev now s) (step-IsConsistent ev now s a)
