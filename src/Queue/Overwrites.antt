-- ===== src/Queue/Overwrites.antt =====
-- apps/backend/src/imports/import-queue.service.ts: what a worker does to a job that has been
-- cancelled, or handed to another worker, behind its back.
use identity_access_graph.Prelude.{
  ℕ, ◌+◌, ◌<◌, String, ◌≡◌, refl, ◌∙◌, sym, ap, subst, true, false, List, [], ◌∷◌, some, inl, inr,
  ◌==◌, ==_refl, string_eq, nat_eq, Bool-cases, Option-cases, includes, lt→ltb, map, All, arith,
  length,
}
use identity_access_graph.Queue.Types.{
  processing, retry, completed, cancelled, job_status_eq, Job, QueueConfig, Store,
}
use identity_access_graph.Queue.Jobs.{
  update_jobs, claim, claimed, complete, fail, find_job, is_cancelled, lease, is_available,
}
use identity_access_graph.Queue.Control.{cancel, cancel_row, open_statuses}
use identity_access_graph.Queue.Rows.{update_jobs-key}
use identity_access_graph.Queue.Attempts.{claim_one}

find-All :
    (P : Job → Type 0) (id : String) (js : List Job) (j : Job)
    → All (λ j. j.id ≡ id → P j) js
    → find_job id js ≡ some j
    → P j
find-All P id [] j a e = cc e
find-All P id (k ∷ js) j (p, a) e = elim (Bool-cases (k.id == id)) [
  | inl h ↦
      let q : some k ≡ some j = ground (arith, h, e) in
      let r : k ≡ j = cc q in subst P r (p ((string_eq.test_iff k.id id).0 h))
  | inr h ↦ find-All P id js j a (ground (arith, h, e))
]

find_job-completed :
    (id : String) (js : List Job)
    → All (λ j. j.id ≡ id → j.status ≡ completed) js
    → is_cancelled (find_job id js) ≡ false
find_job-completed id js a = elim (Option-cases (find_job id js)) [
  | inl e ↦ rw e refl
  | inr f ↦ rw (f.1, find-All (λ j. j.status ≡ completed) id js f.0 a f.1) refl
]

cancel_row-id : (i : String) (now : ℕ) (j : Job) → (cancel_row i now j).id ≡ j.id
cancel_row-id i now j = ground arith

cancel_row-attempts : (i : String) (now : ℕ) (j : Job) → (cancel_row i now j).attempts ≡ j.attempts
cancel_row-attempts i now j = ground arith

find_job-cancel :
    (id i : String) (now : ℕ) (js : List Job) (j : Job)
    → find_job id js ≡ some j
    → find_job id (map (cancel_row i now) js) ≡ some (cancel_row i now j)
find_job-cancel id i now [] j e = cc e
find_job-cancel id i now (k ∷ js) j e = elim (Bool-cases (k.id == id)) [
  | inl h ↦
      let q : some k ≡ some j = ground (arith, h, e) in
      let r : k ≡ j = cc q in rw (cancel_row-id i now k, h) (ap (λ x. some (cancel_row i now x)) r)
  | inr h ↦ rw (cancel_row-id i now k, h) (find_job-cancel id i now js j (ground (arith, h, e)))
]

cancel_row-open :
    (j : Job) (now : ℕ)
    → includes open_statuses j.status ≡ true
    → (cancel_row j.import_id now j).status ≡ cancelled
cancel_row-open j now h = rw (==_refl j.import_id, h) refl

find_job-update :
    (id : String) (f : Job → Job) (js : List Job) (j : Job)
    → ((k : Job) → (f k).id ≡ k.id)
    → find_job id js ≡ some j
    → find_job id (update_jobs id f js) ≡ some (f j)
find_job-update id f [] j h e = cc e
find_job-update id f (k ∷ js) j h e = elim (Bool-cases (k.id == id)) [
  | inl d ↦
      let q : some k ≡ some j = ground (arith, d, e) in
      let r : k ≡ j = cc q in
      let d' : ((f k).id == id) ≡ true = ap (λ i. i == id) (h k) ∙ d in
      rw (d, d') (ap (λ x. some (f x)) r)
  | inr d ↦ rw (d, d) (find_job-update id f js j h (ground (arith, d, e)))
]

-- A job that waits or is being processed is cancelled while a worker has it. The worker's `complete`
-- asks for no status, unlike `fail`: the row, which was cancelled, is completed, at the later time,
-- with the attempts it had.
pub complete-cancel :
    (job j : Job) (before now : ℕ) (s : Store)
    → find_job job.id s.jobs ≡ some j
    → includes open_statuses j.status ≡ true
    → let s' = cancel j.import_id before s in
      (is_cancelled (find_job job.id s'.jobs) ≡ true)
      × ((k : Job) × (find_job job.id (complete job now s').jobs ≡ some k)
          × (k.status ≡ completed)
          × (k.completed_at ≡ some now)
          × (k.attempts ≡ j.attempts))
unfolding complete cancel
complete-cancel job j before now s e h =
    let found = find_job-cancel job.id j.import_id before s.jobs j e in
    (
      rw (found, cancel_row-open j before h) refl,
      (
        _,
        find_job-update job.id _ (map (cancel_row j.import_id before) s.jobs)
            (cancel_row j.import_id before j) (λ k. refl) found,
        refl,
        refl,
        cancel_row-attempts j.import_id before j,
      ),
    )

module _ (c : QueueConfig) where
  -- A failure of a worker whose attempts are not used up puts a job back into the queue that
  -- another worker has completed meanwhile.
  pub fail-complete :
      (job stale : Job) (m : String) (before now : ℕ) (s : Store)
      → stale.id ≡ job.id
      → stale.attempts < stale.max_attempts
      → All
          (λ j. j.id ≡ stale.id → j.status ≡ retry)
          (fail c stale m now (complete job before s)).jobs
  unfolding fail complete
  fail-complete job stale m before now s e h =
      let done = (complete job before s).jobs in
      let a = update_jobs-key (λ j. j.status ≡ completed) job.id _ s.jobs (λ j i. refl) in
      rw
        (find_job-completed stale.id done
          (subst (λ x. All (λ j. j.id ≡ x → j.status ≡ completed) done) (sym e) a))
        (update_jobs-key (λ j. j.status ≡ retry) stale.id _ done
          (λ j i. rw (lt→ltb stale.attempts stale.max_attempts h) refl))

  -- A worker that fails leaves a job as it is that was cancelled while it was queued, to be
  -- retried or being processed.
  pub fail-cancel :
      (job j : Job) (m : String) (before now : ℕ) (s : Store)
      → find_job job.id s.jobs ≡ some j
      → includes open_statuses j.status ≡ true
      → fail c job m now (cancel j.import_id before s) ≡ cancel j.import_id before s
  unfolding fail cancel
  fail-cancel job j m before now s e h =
      rw (find_job-cancel job.id j.import_id before s.jobs j e, cancel_row-open j before h) refl

  -- A worker claims the only job at these times.
  abbrev pub claim_all : String → List ℕ → Store → Store
  claim_all w [] s = s
  claim_all w (now ∷ times) s = claim_all w times (claim c w [] now s).1

  -- Each time is behind the lease that began at the one before it.
  abbrev pub Expired : ℕ → List ℕ → Type 0
  Expired t [] = Unit
  Expired t (now ∷ times) = (t + lease c < now) × Expired now times

  expired_available :
      (j : Job) (t now : ℕ)
      → j.status ≡ processing
      → j.locked_at ≡ some t
      → t + lease c < now
      → is_available c now j ≡ true
  expired_available j t now p l h = rw (p, l) (ground (arith, lt→ltb (t + lease c) now h))

  -- The only job of the table, whose worker dies each time without a word, is claimed again
  -- whenever its lease has run out, however often it may be tried.
  pub claim_all-attempts :
      (w : String) (times : List ℕ) (t : ℕ) (j : Job) (s : Store)
      → s.jobs ≡ j ∷ []
      → j.status ≡ processing
      → j.locked_at ≡ some t
      → Expired t times
      → (k : Job) × ((claim_all w times s).jobs ≡ k ∷ [])
        × (k.attempts ≡ j.attempts + length times)
        × (k.max_attempts ≡ j.max_attempts)
  claim_all-attempts w [] t j s e p l x = (j, e, omega arith, refl)
  claim_all-attempts w (now ∷ times) t j s e p l (h, x) =
      let (k, e', a, b) =
        claim_all-attempts w times now (claimed w now j) (claim c w [] now s).1
          (ap (λ r. r.1.jobs) (claim_one c w now j s e (expired_available j t now p l h))) refl refl
          x in
      (k, e', omega (arith, a), b)
