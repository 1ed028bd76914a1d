-- ===== src/Queue/Choice.antt =====
-- Which job `claim` of apps/backend/src/imports/import-queue.service.ts takes.
use mathlib.Core.List.{Memᴰ}
use identity_access_graph.Prelude.{
  ℕ, ◌≤◌, String, ◌≡◌, refl, Bool, true, false, List, [], ◌∷◌, Option, none, some, inl, inr,
  Bool-cases, leb, leb→le, All, arith, subst, sym, ◌⊎◌, ◌+◌, ◌<◌, includes, ◌==◌, string_eq, ◌&&◌,
  ◌||◌, not,
}
use identity_access_graph.Queue.Rows.{Found, oldest-Found}
use identity_access_graph.Queue.Types.{
  queued, retry, processing, job_status_eq, Job, QueueConfig, Store,
}
use identity_access_graph.Queue.Jobs.{
  oldest, older, is_claimable, claim, claim_job, claimed, lease, expired_at,
}

-- What a query for the oldest selected row is to find.
abbrev pub IsOldest : (Job → Bool) → List Job → Option Job → Type 0
IsOldest p js none = All (λ k. p k ≡ false) js
IsOldest p js (some j) = All (λ k. p k ≡ true → j.created_at ≤ k.created_at) js × (p j ≡ true)

-- `k` was created before every row that `p` selects.
abbrev Before : (Job → Bool) → ℕ → Job → Type 0
Before p n k = p k ≡ true → n ≤ k.created_at

before-le :
    (p : Job → Bool) (m n : ℕ) (js : List Job)
    → m ≤ n
    → All (λ k. p k ≡ true → n ≤ k.created_at) js
    → All (λ k. p k ≡ true → m ≤ k.created_at) js
before-le p m n [] h a = tt
before-le p m n (j ∷ js) h (q, a) = (λ e. omega (arith, q e, h), before-le p m n js h a)

none-before :
    (p : Job → Bool) (m : ℕ) (js : List Job)
    → All (λ k. p k ≡ false) js
    → All (λ k. p k ≡ true → m ≤ k.created_at) js
none-before p m [] a = tt
none-before p m (j ∷ js) (q, a) = (λ e. cc (q, e), none-before p m js a)

older-first : (j k : Job) → leb j.created_at k.created_at ≡ true → older j (some k) ≡ j
older-first j k h = rw h refl

older-second : (j k : Job) → leb j.created_at k.created_at ≡ false → older j (some k) ≡ k
older-second j k h = rw h refl

older-IsOldest :
    (p : Job → Bool) (j : Job) (js : List Job) (o : Option Job)
    → p j ≡ true
    → IsOldest p js o
    → IsOldest p (j ∷ js) (some (older j o))
older-IsOldest p j js none e i = (((λ e'. omega arith), none-before p j.created_at js i), e)
older-IsOldest p j js (some k) e i = elim (Bool-cases (leb j.created_at k.created_at)) [
  | inl h ↦
      subst (λ x. IsOldest p (j ∷ js) (some x)) (sym (older-first j k h))
        (((λ e'. omega arith), before-le p j.created_at k.created_at js (leb→le _ _ h) i.0), e)
  | inr h ↦
      subst (λ x. IsOldest p (j ∷ js) (some x)) (sym (older-second j k h))
        (((λ e'. ground (arith, h)), i.0), i.1)
]

skip-IsOldest :
    (p : Job → Bool) (j : Job) (js : List Job) (o : Option Job)
    → p j ≡ false
    → IsOldest p js o
    → IsOldest p (j ∷ js) o
skip-IsOldest p j js none e i = (e, i)
skip-IsOldest p j js (some k) e i = (((λ h. cc (e, h)), i.0), i.1)

pub oldest-IsOldest : (p : Job → Bool) (js : List Job) → IsOldest p js (oldest p js)
oldest-IsOldest p [] = tt
oldest-IsOldest p (j ∷ js) = elim (Bool-cases (p j)) [
  | inl e ↦ rw e (older-IsOldest p j js (oldest p js) e (oldest-IsOldest p js))
  | inr e ↦ rw e (skip-IsOldest p j js (oldest p js) e (oldest-IsOldest p js))
]

free_if :
    (h q r d p x : Bool)
    → (not h && (((q || r) && d) || (p && x))) ≡ true
    → (h ≡ false) × ((((q ≡ true) ⊎ (r ≡ true)) × (d ≡ true)) ⊎ ((p ≡ true) × (x ≡ true)))
free_if true q r d p x e = cc e
free_if false true r true p x e = (refl, inl (inl refl, refl))
free_if false false true true p x e = (refl, inl (inr refl, refl))
free_if false false false d true true e = (refl, inr (refl, refl))
free_if false true r false true true e = (refl, inr (refl, refl))
free_if false false true false true true e = (refl, inr (refl, refl))
free_if false true r false false x e = cc e
free_if false true r false true false e = cc e
free_if false false true false false x e = cc e
free_if false false true false true false e = cc e
free_if false false false d false x e = cc e
free_if false false false d true false e = cc e

members : (js : List Job) → All (λ j. Memᴰ j js) js
members js = weaker js (λ j m. m)
  where
    weaker : (ks : List Job) → ((j : Job) → Memᴰ j ks → Memᴰ j js) → All (λ j. Memᴰ j js) ks
    weaker [] h = tt
    weaker (k ∷ ks) h = (h k (Memᴰ.head refl), weaker ks (λ j m. h j (Memᴰ.tail m)))

module _ (c : QueueConfig) (held : List String) (now : ℕ) where
  -- No other transaction holds the row, and it waits and its time has come, or its lease has run out.
  abbrev pub IsFree : Job → Type 0
  IsFree j =
      (includes held j.id ≡ false)
      × ((((j.status ≡ queued) ⊎ (j.status ≡ retry)) × (j.next_attempt_at ≤ now))
          ⊎ ((j.status ≡ processing) × ((t : ℕ) × (j.locked_at ≡ some t) × (t + lease c < now))))

  expired-lt :
      (o : Option ℕ) → expired_at c now o ≡ true → (t : ℕ) × (o ≡ some t) × (t + lease c < now)
  expired-lt none e = cc e
  expired-lt (some t) e = (t, refl, ground (arith, e))

  claimable-IsFree : (j : Job) → is_claimable c held now j ≡ true → IsFree j
  claimable-IsFree j e =
      let r =
        free_if (includes held j.id) (j.status == queued) (j.status == retry)
          (leb j.next_attempt_at now) (j.status == processing) (expired_at c now j.locked_at) e in
      (
        r.0,
        elim (r.1) [
          | inl (inl q, d) ↦ inl (inl ((job_status_eq.test_iff j.status queued).0 q), leb→le _ _ d)
          | inl (inr q, d) ↦ inl (inr ((job_status_eq.test_iff j.status retry).0 q), leb→le _ _ d)
          | inr (q, d) ↦
              inr ((job_status_eq.test_iff j.status processing).0 q, expired-lt j.locked_at d)
        ],
      )

  IsFree-claimable : (j : Job) → IsFree j → is_claimable c held now j ≡ true
  IsFree-claimable j (h, inl (inl q, d)) = ground (arith, h, q, d)
  IsFree-claimable j (h, inl (inr q, d)) = ground (arith, h, q, d)
  IsFree-claimable j (h, inr (q, (t, l, d))) = rw (h, q, l) (ground (arith, d))

  -- What a worker is to get: nothing if no row is free, or else a free row of the table that was
  -- created no later than any.
  abbrev pub IsChosen : List Job → Option Job → Type 0
  IsChosen js none = All (λ k. ¬ IsFree k) js
  IsChosen js (some j) = Memᴰ j js × IsFree j × All (λ k. IsFree k → j.created_at ≤ k.created_at) js

  none-IsFree :
      (js : List Job) → All (λ k. is_claimable c held now k ≡ false) js → All (λ k. ¬ IsFree k) js
  none-IsFree [] a = tt
  none-IsFree (k ∷ js) (e, a) = (λ f. let e' = IsFree-claimable k f in cc (e, e'), none-IsFree js a)

  IsFree-later :
      (n : ℕ) (js : List Job)
      → All (λ k. is_claimable c held now k ≡ true → n ≤ k.created_at) js
      → All (λ k. IsFree k → n ≤ k.created_at) js
  IsFree-later n [] a = tt
  IsFree-later n (k ∷ js) (h, a) = (λ f. h (IsFree-claimable k f), IsFree-later n js a)

  oldest-IsChosen : (s : Store) → IsChosen s.jobs (oldest (is_claimable c held now) s.jobs)
  oldest-IsChosen s =
      chosen (oldest (is_claimable c held now) s.jobs)
        (oldest-IsOldest (is_claimable c held now) s.jobs)
        (oldest-Found (λ j. Memᴰ j s.jobs) (is_claimable c held now) s.jobs (members s.jobs))
    where
      chosen :
          (o : Option Job)
          → IsOldest (is_claimable c held now) s.jobs o
          → Found (λ j. Memᴰ j s.jobs) (is_claimable c held now) o
          → IsChosen s.jobs o
      chosen none i f = none-IsFree s.jobs i
      chosen (some j) i f = (f.0, claimable-IsFree j f.1, IsFree-later j.created_at s.jobs i.0)

  claim_job-choice :
      (w : String) (s : Store) (o : Option Job)
      → IsChosen s.jobs o
      → ((claim_job w now o s).0 ≡ none → All (λ k. ¬ IsFree k) s.jobs)
        × ((job : Job)
            → (claim_job w now o s).0 ≡ some job
            → (j : Job) × (job ≡ claimed w now j) × IsChosen s.jobs (some j))
  claim_job-choice w s none i = ((λ e. i), λ job e. cc e)
  claim_job-choice w s (some j) i =
      ((λ e. cc e), λ job e. (j, (let p : claimed w now j ≡ job = cc e in sym p), i))

  -- A worker goes away empty-handed only if no row is free. Else it is given a row of the table that
  -- is free, marked as its own and as being processed, with one attempt more; and that row was created
  -- no later than any row that is free. A row is free if no other transaction holds it, and it is
  -- queued or to be retried and its time has come, or it is being processed and its lease has run out.
  pub claim-choice :
      (w : String) (s : Store)
      → ((claim c w held now s).0 ≡ none → IsChosen s.jobs none)
        × ((job : Job)
            → (claim c w held now s).0 ≡ some job
            → (j : Job) × (job ≡ claimed w now j) × IsChosen s.jobs (some j))
  unfolding claim
  claim-choice w s =
      claim_job-choice w s (oldest (is_claimable c held now) s.jobs) (oldest-IsChosen s)
