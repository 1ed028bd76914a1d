-- ===== src/Queue/Stats.antt =====
-- `stats` of apps/backend/src/imports/import-queue.service.ts counts every job once.
use identity_access_graph.Prelude.{ℕ, ◌+◌, ◌≡◌, refl, List, [], ◌∷◌, map, length, arith}
use identity_access_graph.Queue.Types.{JobStatus, job_status_eq, Job, Store}
use identity_access_graph.Queue.Control.{count_by, all_statuses, stats}

abbrev pub total : List (JobStatus × ℕ) → ℕ
total [] = 0
total ((st, n) ∷ ns) = n + total ns

count_by-all : (js : List Job) → total (map (λ st. (st, count_by st js)) all_statuses) ≡ length js
count_by-all [] = refl
count_by-all (j ∷ js) = ground (arith, count_by-all js)

-- The counts by status add up to the number of jobs.
pub stats-total : (now : ℕ) (s : Store) → total (stats now s).0 ≡ length s.jobs
unfolding stats
stats-total now s = count_by-all s.jobs
