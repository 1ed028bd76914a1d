-- ===== src/Queue/Rows.antt =====
-- What every row of the table of jobs keeps, through the statements of
-- apps/backend/src/imports/import-queue.service.ts.
use identity_access_graph.Prelude.{
  String, ◌≡◌, Bool, true, false, List, [], ◌∷◌, map, Option, none, some, inl, inr, ◌==◌, string_eq,
  Bool-cases, leb, any, All, All-append, arith,
}
use identity_access_graph.Queue.Types.{Job}
use identity_access_graph.Queue.Jobs.{update_jobs, save_job, oldest, older}
use identity_access_graph.Queue.Control.{newest, newer}

module _ (P : Job → Type 0) where
  pub update_jobs-All :
      (id : String) (f : Job → Job) (js : List Job)
      → ((j : Job) → j.id ≡ id → P j → P (f j))
      → All P js
      → All P (update_jobs id f js)
  update_jobs-All id f [] k a = tt
  update_jobs-All id f (j ∷ js) k (p, a) = elim (Bool-cases (j.id == id)) [
    | inl e ↦ (rw e (k j ((string_eq.test_iff j.id id).0 e) p), update_jobs-All id f js k a)
    | inr e ↦ (rw e p, update_jobs-All id f js k a)
  ]

  pub save_job-All : (job : Job) (js : List Job) → P job → All P js → All P (save_job job js)
  save_job-All job js p a = elim (Bool-cases (any (λ j. j.id == job.id) js)) [
    | inl e ↦ rw e (update_jobs-All job.id (λ j. job) js (λ j i q. p) a)
    | inr e ↦ rw e (All-append P js (job ∷ []) a (p, tt))
  ]

  pub map-All :
      (f : Job → Job) (js : List Job) → ((j : Job) → P j → P (f j)) → All P js → All P (map f js)
  map-All f [] k a = tt
  map-All f (j ∷ js) k (p, a) = (k j p, map-All f js k a)

  -- What a query finds is a row that it selects.
  abbrev pub Found : (Job → Bool) → Option Job → Type 0
  Found p none = Unit
  Found p (some j) = P j × (p j ≡ true)

  older-Found :
      (p : Job → Bool) (j : Job) (o : Option Job)
      → P j
      → p j ≡ true
      → Found p o
      → Found p (some (older j o))
  older-Found p j none q e f = (q, e)
  older-Found p j (some k) q e f = elim (Bool-cases (leb j.created_at k.created_at)) [
    | inl i ↦ rw i (q, e)
    | inr i ↦ rw i f
  ]

  newer-Found :
      (p : Job → Bool) (j : Job) (o : Option Job)
      → P j
      → p j ≡ true
      → Found p o
      → Found p (some (newer j o))
  newer-Found p j none q e f = (q, e)
  newer-Found p j (some k) q e f = elim (Bool-cases (leb k.created_at j.created_at)) [
    | inl i ↦ rw i (q, e)
    | inr i ↦ rw i f
  ]

  pub oldest-Found : (p : Job → Bool) (js : List Job) → All P js → Found p (oldest p js)
  oldest-Found p [] a = tt
  oldest-Found p (j ∷ js) (q, a) = elim (Bool-cases (p j)) [
    | inl e ↦ rw e (older-Found p j (oldest p js) q e (oldest-Found p js a))
    | inr e ↦ rw e (oldest-Found p js a)
  ]

  pub newest-Found : (p : Job → Bool) (js : List Job) → All P js → Found p (newest p js)
  newest-Found p [] a = tt
  newest-Found p (j ∷ js) (q, a) = elim (Bool-cases (p j)) [
    | inl e ↦ rw e (newer-Found p j (newest p js) q e (newest-Found p js a))
    | inr e ↦ rw e (newest-Found p js a)
  ]

-- A statement that writes to the rows of a key makes of them what it says.
pub update_jobs-key :
    (P : Job → Type 0) (id : String) (f : Job → Job) (js : List Job)
    → ((j : Job) → j.id ≡ id → P (f j))
    → All (λ j. j.id ≡ id → P j) (update_jobs id f js)
update_jobs-key P id f [] k = tt
update_jobs-key P id f (j ∷ js) k = elim (Bool-cases (j.id == id)) [
  | inl e ↦ (rw e (λ i. k j ((string_eq.test_iff j.id id).0 e)), update_jobs-key P id f js k)
  | inr e ↦ (rw e (λ i. cc (e, (string_eq.test_iff j.id id).1 i)), update_jobs-key P id f js k)
]

absent-All :
    (P : Job → Type 0) (id : String) (js : List Job)
    → any (λ j. j.id == id) js ≡ false
    → All (λ j. j.id ≡ id → P j) js
absent-All P id [] e = tt
absent-All P id (j ∷ js) e = elim (Bool-cases (j.id == id)) [
  | inl i ↦ ground (arith, i, e)
  | inr i ↦
      (λ h. cc (i, (string_eq.test_iff j.id id).1 h), absent-All P id js (ground (arith, i, e)))
]

-- What is saved is what the rows of its key are.
pub save_job-key :
    (P : Job → Type 0) (job : Job) (js : List Job)
    → P job
    → All (λ j. j.id ≡ job.id → P j) (save_job job js)
save_job-key P job js p = elim (Bool-cases (any (λ j. j.id == job.id) js)) [
  | inl e ↦ rw e (update_jobs-key P job.id (λ j. job) js (λ j i. p))
  | inr e ↦ rw e (
      All-append (λ j. j.id ≡ job.id → P j) js (job ∷ []) (absent-All P job.id js e) ((λ i. p), tt))
]
