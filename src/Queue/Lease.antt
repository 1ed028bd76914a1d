-- ===== src/Queue/Lease.antt =====
-- apps/backend/src/imports/import-queue.service.ts: `claim` gives a job to one worker at a time.
use identity_access_graph.Prelude.{
  ℕ, ◌+◌, ◌≤◌, String, ◌≡◌, ◌≢◌, ◌⊎◌, refl, sym, ap, subst, true, false, List, [], ◌∷◌, Option,
  none, some, inl, inr, ◌∙◌, ◌&&◌, string_eq, nat_eq, ◌==◌, Bool-cases, includes, All, arith,
}
use identity_access_graph.Queue.Types.{processing, job_status_eq, Job, QueueConfig, Store}
use identity_access_graph.Queue.Jobs.{
  new_job, enqueue, claim, claim_job, claimed, lease, expired_at, is_claimable, oldest,
  checkpoint_job, complete, fail, is_cancelled, find_job, save_job,
}
use identity_access_graph.Queue.Control.{
  fail_permanent, requeue_recovered, cancel, cancel_row, retry_job, retry_found, newest, is_of,
  open_statuses,
}
use identity_access_graph.Queue.Events.{
  Event, enqueues, claims, checkpoints, completes, fails, fails_permanently, recovers, cancels,
  retries, step, steps,
}
use identity_access_graph.Queue.Rows.{
  update_jobs-All, save_job-All, map-All, oldest-Found, newest-Found, Found, save_job-key,
}
use identity_access_graph.Queue.Consistent.{is_terminal}

module _ (c : QueueConfig) where
  -- A worker's lease counts from `t` or later, or the job has ended.
  abbrev pub LeasedSince : ℕ → Option ℕ → Type 0
  LeasedSince t none = Unit
  LeasedSince t (some u) = t ≤ u

  abbrev pub IsLeased : ℕ → Job → Type 0
  IsLeased t j =
      ((j.status ≡ processing) × LeasedSince t j.locked_at) ⊎ (is_terminal j.status ≡ true)

  abbrev pub SameFile : Job → Job → Type 0
  SameFile k j = (j.import_id ≡ k.import_id) × (j.file_id ≡ k.file_id)

  -- The rows of the job `k` are leased, and stand for its file.
  abbrev pub RowOf : Job → ℕ → Job → Type 0
  RowOf k t j = j.id ≡ k.id → IsLeased t j × (j.import_id ≡ k.import_id) × (j.file_id ≡ k.file_id)

  -- The call does not hand job `k` back to the queue: it is no failure to be retried, no recovery
  -- and no manual retry of this job, and its new rows have other keys.
  abbrev pub LeavesAlone : Job → Event → Type 0
  LeavesAlone k (enqueues id i f) = id ≢ k.id
  LeavesAlone k (fails job m) = job.id ≢ k.id
  LeavesAlone k (recovers job) = job.id ≢ k.id
  LeavesAlone k (retries id i f) = (id ≢ k.id) × ((i ≢ k.import_id) ⊎ (f ≢ k.file_id))
  LeavesAlone k _ = Unit

  -- Within the lease that began at `t`.
  abbrev pub WithinLease : ℕ → ℕ → Type 0
  WithinLease t now = (t ≤ now) × (now ≤ t + lease c)

  leased-expired_at :
      (t now : ℕ) (o : Option ℕ) → LeasedSince t o → now ≤ t + lease c → expired_at c now o ≡ false
  leased-expired_at t now none l w = refl
  leased-expired_at t now (some u) l w = ground arith

  leased-claimable :
      (t : ℕ) (held : List String) (now : ℕ) (j : Job)
      → IsLeased t j
      → now ≤ t + lease c
      → is_claimable c held now j ≡ false
  leased-claimable t held now j (inl (p, l)) w =
      ground (arith, leased-expired_at t now j.locked_at l w)
  leased-claimable t held now j (inr p) w = ground arith

  claimed-RowOf :
      (k : Job) (t : ℕ) (held : List String) (now : ℕ) (w : String) (j : Job)
      → RowOf k t j
      → now ≤ t + lease c
      → is_claimable c held now j ≡ true
      → RowOf k t (claimed w now j)
  claimed-RowOf k t held now w j r n e = λ i. cc (leased-claimable t held now j (r i).0 n, e)

  claim_job-RowOf :
      (k : Job) (t : ℕ) (held : List String) (now : ℕ) (w : String) (s : Store) (o : Option Job)
      → t ≤ now
      → now ≤ t + lease c
      → Found (RowOf k t) (is_claimable c held now) o
      → All (RowOf k t) s.jobs
      → All (RowOf k t) (claim_job w now o s).1.jobs
  claim_job-RowOf k t held now w s none b n f a = a
  claim_job-RowOf k t held now w s (some j) b n (r, e) a =
      save_job-All (RowOf k t) _ s.jobs (claimed-RowOf k t held now w j r n e) a

  other_file :
      (k j : Job) (i f : String)
      → is_of i f j ≡ true
      → (i ≢ k.import_id) ⊎ (f ≢ k.file_id)
      → SameFile k j
      → ⊥
  other_file k j i f e (inl d) (p, q) = ground (arith, string_eq.test_iff j.import_id i)
  other_file k j i f e (inr d) (p, q) = ground (arith, string_eq.test_iff j.file_id f)

  renewed-IsLeased :
      (t now : ℕ) (j : Job)
      → t ≤ now
      → IsLeased t j
      → IsLeased t (record j { locked_at = some now })
  renewed-IsLeased t now j n (inl (p, l)) = inl (p, n)
  renewed-IsLeased t now j n (inr p) = inr p

  retry_found-RowOf :
      (k : Job) (t : ℕ) (id i f : String) (now : ℕ) (s : Store) (o : Option Job)
      → id ≢ k.id
      → (i ≢ k.import_id) ⊎ (f ≢ k.file_id)
      → Found (RowOf k t) (is_of i f) o
      → All (RowOf k t) s.jobs
      → All (RowOf k t) (retry_found c o id i f now s).1.jobs
  unfolding enqueue new_job
  retry_found-RowOf k t id i f now s none h d r a =
      save_job-All (RowOf k t) _ s.jobs (λ e. absurd (h e)) a
  retry_found-RowOf k t id i f now s (some j) h d (r, e) a =
      save_job-All (RowOf k t) _ s.jobs (λ i'. absurd (other_file k j i f e d ((r i').1, (r i').2)))
        a

  cancel_row-RowOf :
      (k : Job) (t : ℕ) (import_id : String) (now : ℕ) (j : Job)
      → RowOf k t j
      → RowOf k t (cancel_row import_id now j)
  cancel_row-RowOf k t i now j r =
      elim (Bool-cases (j.import_id == i && includes open_statuses j.status)) [
        | inl e ↦ rw e (λ h. (inr refl, (r h).1, (r h).2))
        | inr e ↦ rw e r
      ]

  step-RowOf :
      (k : Job) (t : ℕ) (ev : Event) (now : ℕ) (s : Store)
      → LeavesAlone k ev
      → WithinLease t now
      → All (RowOf k t) s.jobs
      → All (RowOf k t) (step c ev now s).jobs
  unfolding step enqueue new_job checkpoint_job complete fail fail_permanent requeue_recovered
      cancel claim retry_job
  step-RowOf k t (enqueues id i f) now s h n a =
      save_job-All (RowOf k t) _ s.jobs (λ e. absurd (h e)) a
  step-RowOf k t (claims w held) now s h n a =
      claim_job-RowOf k t held now w s (oldest (is_claimable c held now) s.jobs) n.0 n.1
        (oldest-Found (RowOf k t) (is_claimable c held now) s.jobs a) a
  step-RowOf k t (checkpoints id d) now s h n a =
      update_jobs-All (RowOf k t) id _ s.jobs
        (λ j i r e. (renewed-IsLeased t now j n.0 (r e).0, (r e).1, (r e).2)) a
  step-RowOf k t (completes job) now s h n a =
      update_jobs-All (RowOf k t) job.id _ s.jobs (λ j i r e. (inr refl, (r e).1, (r e).2)) a
  step-RowOf k t (fails job m) now s h n a =
      elim (Bool-cases (is_cancelled (find_job job.id s.jobs))) [
        | inl e ↦ rw e a
        | inr e ↦
            rw e
              (update_jobs-All (RowOf k t) job.id _ s.jobs (λ j i r e'. absurd (h (sym i ∙ e'))) a)
      ]
  step-RowOf k t (fails_permanently job e m) now s h n a =
      update_jobs-All (RowOf k t) job.id _ s.jobs (λ j i r e. (inr refl, (r e).1, (r e).2)) a
  step-RowOf k t (recovers job) now s h n a =
      elim (Bool-cases (includes open_statuses job.status)) [
        | inl e ↦
            rw e
              (update_jobs-All (RowOf k t) job.id _ s.jobs (λ j i r e'. absurd (h (sym i ∙ e'))) a)
        | inr e ↦ rw e a
      ]
  step-RowOf k t (cancels i) now s h n a =
      map-All (RowOf k t) (cancel_row i now) s.jobs (cancel_row-RowOf k t i now) a
  step-RowOf k t (retries id i f) now s h n a =
      retry_found-RowOf k t id i f now s (newest (is_of i f) s.jobs) h.0 h.1
        (newest-Found (RowOf k t) (is_of i f) s.jobs a) a

  -- The calls of a sequence leave job `k` alone, within the lease that began at `t`.
  abbrev pub Undisturbed : Job → ℕ → List (Event × ℕ) → Type 0
  Undisturbed k t evs = All (λ e. LeavesAlone k e.0 × WithinLease t e.1) evs

  steps-RowOf :
      (k : Job) (t : ℕ) (evs : List (Event × ℕ)) (s : Store)
      → Undisturbed k t evs
      → All (RowOf k t) s.jobs
      → All (RowOf k t) (steps c evs s).jobs
  steps-RowOf k t [] s u a = a
  steps-RowOf k t ((ev, now) ∷ evs) s (h, u) a =
      steps-RowOf k t evs (step c ev now s) u (step-RowOf k t ev now s h.0 h.1 a)

  claimed_again :
      (k : Job) (t : ℕ) (w : String) (held : List String) (now : ℕ) (s : Store)
      → now ≤ t + lease c
      → (o : Option Job) → Found (RowOf k t) (is_claimable c held now) o
      → (job : Job) → (claim_job w now o s).0 ≡ some job
      → job.id ≢ k.id
  claimed_again k t w held now s n none f job h = cc h
  claimed_again k t w held now s n (some j) (r, e) job h = same (cc h)
    where
      same : claimed w now j ≡ job → job.id ≢ k.id
      same q i = cc (leased-claimable t held now j (r (ap (λ x. x.id) q ∙ i)).0 n, e)

  claimed-leased :
      (w : String) (t : ℕ) (j k : Job) (s : Store)
      → claimed w t j ≡ k
      → All (RowOf k t) (save_job (claimed w t j) s.jobs)
  claimed-leased w t j k s e =
      subst (λ x. All (RowOf x t) (save_job (claimed w t j) s.jobs)) e
        (save_job-key (λ x. IsLeased t x × (x.import_id ≡ j.import_id) × (x.file_id ≡ j.file_id))
          (claimed w t j) s.jobs (inl (refl, omega arith), refl, refl))

  claim_job-leased :
      (w : String) (t : ℕ) (s : Store) (o : Option Job) (k : Job)
      → (claim_job w t o s).0 ≡ some k
      → All (RowOf k t) (claim_job w t o s).1.jobs
  claim_job-leased w t s none k h = cc h
  claim_job-leased w t s (some j) k h = claimed-leased w t j k s (cc h)

  -- A job that a worker claimed is handed to nobody, for as long as its lease lasts: whatever is
  -- called meanwhile, with jobs as old as they like, unless this job fails for a retry, is recovered
  -- or is retried by hand.
  pub claim-exclusive :
      (w v : String) (held busy : List String) (t now : ℕ) (s : Store) (k job : Job)
      (evs : List (Event × ℕ))
      → (claim c w held t s).0 ≡ some k
      → Undisturbed k t evs
      → WithinLease t now
      → (claim c v busy now (steps c evs (claim c w held t s).1)).0 ≡ some job
      → job.id ≢ k.id
  unfolding claim
  claim-exclusive w v held busy t now s k job evs h u n g =
      let after = steps c evs (claim c w held t s).1 in
      claimed_again k t v busy now after n.1 (oldest (is_claimable c busy now) after.jobs)
        (oldest-Found (RowOf k t) (is_claimable c busy now) after.jobs (
          steps-RowOf k t evs (claim c w held t s).1 u
            (claim_job-leased w t s (oldest (is_claimable c held t) s.jobs) k h)))
        job g
