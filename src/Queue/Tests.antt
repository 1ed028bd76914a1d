-- ===== src/Queue/Tests.antt =====
-- The theorems on the queue of jobs at concrete tables.
use identity_access_graph.Prelude.{
  ℕ, String, ◌≡◌, ◌≢◌, refl, true, List, [], ◌∷◌, none, some, inl, field, end, num, All, arith,
}
use identity_access_graph.Queue.Types.{queued, retry, completed, Job, QueueConfig, Store}
use identity_access_graph.Queue.Jobs.{
  is_cancelled, find_job, claim, claimed, checkpoint_job, complete, fail,
}
use identity_access_graph.Queue.Control.{cancel, stats}
use identity_access_graph.Queue.Events.{
  Event, enqueues, claims, checkpoints, completes, fails, cancels, retries, step, steps,
}
use identity_access_graph.Queue.Consistent.{IsConsistent, steps-IsConsistent}
use identity_access_graph.Queue.Lease.{claim-exclusive}
use identity_access_graph.Queue.Choice.{IsChosen, claim-choice}
use identity_access_graph.Queue.Stats.{total, stats-total}
use identity_access_graph.Queue.Attempts.{attempt_all, HasTried, attempt_all-status}
use identity_access_graph.Queue.Overwrites.{
  complete-cancel, fail-complete, fail-cancel, claim_all, claim_all-attempts,
}

abbrev settings : QueueConfig
settings = record {
  max_job_attempts = 3;
  worker_lease_ms = 10;
  stale_job_timeout_ms = 20;
  retry_base_delay_ms = 100;
}

abbrev empty_store : Store
empty_store = record { jobs = []; audit = [] }

abbrev waiting : String → ℕ → Job
waiting id at = record {
  id = id;
  import_id = "imports";
  file_id = id;
  status = queued;
  attempts = 0;
  max_attempts = 3;
  checkpoint = end;
  error = none;
  locked_by = none;
  locked_at = none;
  next_attempt_at = at;
  created_at = at;
  completed_at = none;
}

abbrev two_jobs : Store
two_jobs = record { jobs = waiting "first" 1 ∷ waiting "second" 2 ∷ []; audit = [] }

abbrev one_job : Store
one_job = record { jobs = waiting "first" 1 ∷ []; audit = [] }

abbrev first_claimed : Job
first_claimed = claimed "worker" 10 (waiting "first" 1)

abbrev day : List (Event × ℕ)
day =
    (enqueues "first" "imports" "users", 1)
    ∷ (claims "worker" [], 2)
    ∷ (fails first_claimed "no such column", 3)
    ∷ (cancels "imports", 4)
    ∷ (completes first_claimed, 5)
    ∷ (retries "second" "imports" "users", 6)
    ∷ []

steps-IsConsistent_example : All IsConsistent (steps settings day empty_store).jobs
steps-IsConsistent_example = steps-IsConsistent settings day empty_store tt

claim-exclusive_example : ◌≢◌ {A = String} "second" "first"
unfolding claim step checkpoint_job
claim-exclusive_example =
    claim-exclusive settings "worker" "other" [] [] 10 25 two_jobs first_claimed
      (claimed "other" 25 (waiting "second" 2))
      ((checkpoints "first" (field "rows" (num 5) end), 12) ∷ []) refl
      ((tt, (omega arith, omega arith)), tt) (omega arith, omega arith) refl

claim-choice_example :
    ((claim settings "worker" [] 10 two_jobs).0 ≡ none → IsChosen settings [] 10 two_jobs.jobs none)
    × ((job : Job)
        → (claim settings "worker" [] 10 two_jobs).0 ≡ some job
        → (j : Job) × (job ≡ claimed "worker" 10 j)
          × IsChosen settings [] 10 two_jobs.jobs (some j))
claim-choice_example = claim-choice settings [] 10 "worker" two_jobs

two_jobs_counted : total (stats 10 two_jobs).0 ≡ 2
two_jobs_counted = stats-total 10 two_jobs

attempt_all-status_example :
    HasTried settings 3 3 400
      (attempt_all settings "worker" "bad file" (10 ∷ 200 ∷ 400 ∷ []) one_job).jobs
attempt_all-status_example =
    attempt_all-status settings "worker" "bad file" 10 (200 ∷ 400 ∷ []) (waiting "first" 1) one_job
      refl (inl refl) (omega arith, (omega arith, (omega arith, tt))) (omega arith)

abbrev in_progress : Store
in_progress = record { jobs = first_claimed ∷ []; audit = [] }

claim_all-attempts_example :
    (k : Job) × ((claim_all settings "worker" (40 ∷ 70 ∷ 100 ∷ 130 ∷ []) in_progress).jobs ≡ k ∷ [])
    × (k.attempts ≡ 5)
    × (k.max_attempts ≡ 3)
claim_all-attempts_example =
    claim_all-attempts settings "worker" (40 ∷ 70 ∷ 100 ∷ 130 ∷ []) 10 first_claimed in_progress
      refl refl refl (omega arith, (omega arith, (omega arith, (omega arith, tt))))

complete-cancel_example :
    (is_cancelled (find_job "first" (cancel "imports" 11 in_progress).jobs) ≡ true)
    × ((k : Job) × (find_job "first"
            (complete first_claimed 12 (cancel "imports" 11 in_progress)).jobs
          ≡ some k)
        × (k.status ≡ completed)
        × (k.completed_at ≡ some 12)
        × (k.attempts ≡ first_claimed.attempts))
complete-cancel_example = complete-cancel first_claimed first_claimed 11 12 in_progress refl refl

completed_job_requeued :
    All
      (λ j. j.id ≡ "first" → j.status ≡ retry)
      (fail settings first_claimed "lost connection" 42
        (complete (claimed "other" 40 first_claimed) 41 in_progress)).jobs
completed_job_requeued =
    fail-complete settings (claimed "other" 40 first_claimed) first_claimed "lost connection" 41 42
      in_progress refl (omega arith)

fail-cancel_example :
    fail settings first_claimed "lost connection" 12 (cancel "imports" 11 in_progress)
    ≡ cancel "imports" 11 in_progress
fail-cancel_example =
    fail-cancel settings first_claimed first_claimed "lost connection" 11 12 in_progress refl refl
