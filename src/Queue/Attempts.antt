-- ===== src/Queue/Attempts.antt =====
-- apps/backend/src/imports/import-queue.service.ts: how often a job is tried.
use identity_access_graph.Prelude.{
  ℕ, suc, ◌+◌, ◌-◌, ◌*◌, ◌^◌, ◌≤◌, String, ◌≡◌, refl, true, List, [], ◌∷◌, Option, none, some,
  ==_refl, string_eq, nat_eq, if◌then◌else◌, ltb, arith, length, ◌⊎◌, inl, inr, subst, lt→ltb, Bool,
  ◌&&◌, ◌||◌, ◌==◌, Bool-cases, leb, leb→le,
}
use identity_access_graph.Queue.Types.{
  JobStatus, queued, processing, retry, failed, job_status_eq, Job, QueueConfig, Store,
}
use identity_access_graph.Queue.Jobs.{claim, claimed, is_available, fail, failed_row, expired_at}

abbrev pub IsWaiting : Job → Type 0
IsWaiting j = (j.status ≡ queued) ⊎ (j.status ≡ retry)

-- How a job stands after its `n`-th attempt has failed.
abbrev pub status_after : ℕ → ℕ → JobStatus
status_after n m = if ltb n m then retry else failed

abbrev may_go : JobStatus → Bool → Bool → Bool
may_go st due over = ((st == queued || st == retry) && due) || (st == processing && over)

retry_due : (st : JobStatus) (due over : Bool) → st ≡ retry → may_go st due over ≡ true → due ≡ true
retry_due st due over e a =
    let a' : may_go retry due over ≡ true = subst (λ x. may_go x due over ≡ true) e a in
    ground (arith, a')

failed_never : (st : JobStatus) (due over : Bool) → st ≡ failed → ¬ (may_go st due over ≡ true)
failed_never st due over e a =
    let a' : may_go failed due over ≡ true = subst (λ x. may_go x due over ≡ true) e a in cc a'

module _ (c : QueueConfig) where
  -- A worker claims a job and fails with `message`, as soon as a job is due, `n` times.
  abbrev fail_claimed : Option Job → String → ℕ → Store → Store
  fail_claimed none message now s = s
  fail_claimed (some job) message now s = fail c job message now s

  abbrev pub attempt : String → String → ℕ → Store → Store
  attempt worker message now s =
      let (o, s') = claim c worker [] now s in fail_claimed o message now s'

  -- The attempts of a job, at these times.
  abbrev pub attempt_all : String → String → List ℕ → Store → Store
  attempt_all worker message [] s = s
  attempt_all worker message (now ∷ times) s =
      attempt_all worker message times (attempt worker message now s)

  -- The delay behind the `n`-th attempt: twice the one before it.
  abbrev pub delay_behind : ℕ → ℕ
  delay_behind n = c.retry_base_delay_ms * 2 ^ (n - 1)

  -- The only row has failed `n` times, the last time at `at`. Its next attempt is due when the delay
  -- is over, and no worker gets it before.
  abbrev pub HasTried : ℕ → ℕ → ℕ → List Job → Type 0
  HasTried n m at js =
      (j : Job) × (js ≡ j ∷ [])
      × (j.attempts ≡ n)
      × (j.status ≡ status_after n m)
      × (j.next_attempt_at ≡ at + delay_behind n)
      × ((t : ℕ) → is_available c t j ≡ true → at + delay_behind n ≤ t)

  abbrev pub last_of : ℕ → List ℕ → ℕ
  last_of at [] = at
  last_of at (now ∷ times) = last_of now times

  pub claim_one :
      (w : String) (now : ℕ) (j : Job) (s : Store)
      → s.jobs ≡ j ∷ []
      → is_available c now j ≡ true
      → claim c w [] now s ≡ (some (claimed w now j), record s { jobs = claimed w now j ∷ [] })
  unfolding claim
  claim_one w now j s e h = rw (e, h, ==_refl j.id) refl

  attempt_one :
      (w m : String) (now : ℕ) (j : Job) (s : Store)
      → s.jobs ≡ j ∷ []
      → is_available c now j ≡ true
      → (attempt w m now s).jobs ≡ failed_row c (claimed w now j) m now (claimed w now j) ∷ []
  unfolding fail
  attempt_one w m now j s e h = rw (claim_one w now j s e h, ==_refl j.id) refl

  -- Each time is no earlier than the end of the delay before it.
  abbrev pub IsDue : ℕ → ℕ → List ℕ → Type 0
  IsDue attempts next [] = Unit
  IsDue attempts next (now ∷ times) =
      (next ≤ now) × IsDue (suc attempts) (now + c.retry_base_delay_ms * 2 ^ attempts) times

  waiting-available :
      (now : ℕ) (j : Job) → IsWaiting j → j.next_attempt_at ≤ now → is_available c now j ≡ true
  waiting-available now j (inl e) h = ground arith
  waiting-available now j (inr e) h = ground arith

  abbrev row_after : String → String → ℕ → Job → Job
  row_after w m now j = failed_row c (claimed w now j) m now (claimed w now j)

  row_after-IsDue :
      (w m : String) (now : ℕ) (times : List ℕ) (j : Job)
      → IsDue (suc j.attempts) (now + c.retry_base_delay_ms * 2 ^ j.attempts) times
      → IsDue (row_after w m now j).attempts (row_after w m now j).next_attempt_at times
  row_after-IsDue w m now times j d =
      let p : j.attempts ≡ j.attempts + 1 - 1 = omega arith in
      let q : suc j.attempts ≡ j.attempts + 1 = omega arith in
      subst (λ k. IsDue (j.attempts + 1) (now + c.retry_base_delay_ms * 2 ^ k) times) p
        (subst (λ k. IsDue k (now + c.retry_base_delay_ms * 2 ^ j.attempts) times) q d)

  later_tried : (n k m at : ℕ) (js : List Job) → n ≡ k → HasTried n m at js → HasTried k m at js
  later_tried n k m at js e h = subst (λ x. HasTried x m at js) e h

  available-due :
      (j : Job) (t : ℕ)
      → j.status ≡ status_after j.attempts j.max_attempts
      → is_available c t j ≡ true
      → j.next_attempt_at ≤ t
  available-due j t e a = elim (Bool-cases (ltb j.attempts j.max_attempts)) [
    | inl h ↦
        let st : j.status ≡ retry = ground (arith, e, h) in
        leb→le j.next_attempt_at t
          (retry_due j.status (leb j.next_attempt_at t) (expired_at c t j.locked_at) st a)
    | inr h ↦
        let st : j.status ≡ failed = ground (arith, e, h) in
        absurd (failed_never j.status (leb j.next_attempt_at t) (expired_at c t j.locked_at) st a)
  ]

  status_before :
      (n m : ℕ) (times : List ℕ) (st : JobStatus)
      → st ≡ status_after n m
      → n + suc (length times) ≤ m
      → st ≡ retry
  status_before n m times st e h = ground (arith, lt→ltb n m (omega (arith, h)))

  attempt_rest :
      (w m : String) (times : List ℕ) (at : ℕ) (j : Job) (s : Store)
      → s.jobs ≡ j ∷ []
      → j.status ≡ status_after j.attempts j.max_attempts
      → j.next_attempt_at ≡ at + delay_behind j.attempts
      → IsDue j.attempts j.next_attempt_at times
      → j.attempts + length times ≤ j.max_attempts
      → HasTried
          (j.attempts + length times)
          j.max_attempts
          (last_of at times)
          (attempt_all w m times s).jobs
  attempt_rest w m [] at j s e t q d n =
      later_tried j.attempts (j.attempts + 0) j.max_attempts at s.jobs (omega arith)
        (j, e, refl, t, q, λ u a. omega (arith, q, available-due j u t a))
  attempt_rest w m (now ∷ times) at j s e t q d n =
      later_tried (j.attempts + 1 + length times) (j.attempts + suc (length times)) j.max_attempts
        (last_of now times) _ (omega arith)
        (attempt_rest w m times now (row_after w m now j) (attempt w m now s)
          (attempt_one w m now j s e (
            waiting-available now j
              (inr (status_before j.attempts j.max_attempts times j.status t n)) d.0))
          refl refl (row_after-IsDue w m now times j d.1) (omega (arith, n)))

  -- The only job of the table, queued or to be retried, is tried at times when it is due, no more
  -- often than it may be, and fails each time. Behind the last of them it is to be retried, or has
  -- failed if it has been tried as often as it may be. The time set for its next attempt is that of
  -- the last one and the base delay, doubled for each attempt but the first; before it, no worker may
  -- take the job.
  pub attempt_all-status :
      (w m : String) (now : ℕ) (times : List ℕ) (j : Job) (s : Store)
      → s.jobs ≡ j ∷ []
      → IsWaiting j
      → IsDue j.attempts j.next_attempt_at (now ∷ times)
      → j.attempts + length (now ∷ times) ≤ j.max_attempts
      → HasTried
          (j.attempts + length (now ∷ times))
          j.max_attempts
          (last_of now times)
          (attempt_all w m (now ∷ times) s).jobs
  attempt_all-status w m now times j s e t d n =
      later_tried (j.attempts + 1 + length times) (j.attempts + suc (length times)) j.max_attempts
        (last_of now times) _ (omega arith)
        (attempt_rest w m times now (row_after w m now j) (attempt w m now s)
          (attempt_one w m now j s e (waiting-available now j t d.0)) refl refl
          (row_after-IsDue w m now times j d.1) (omega (arith, n)))
