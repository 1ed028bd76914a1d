-- ===== src/Queue/Types.antt =====
-- The rows of `ImportJobEntity` and `ImportAuditLogEntity` in apps/backend/src/database/entities.ts,
-- and what apps/backend/src/imports/import-config.ts configures for the queue.
--
-- Times are milliseconds; the clock of the database and the clock of the process are one clock.
use identity_access_graph.Prelude.{
  ℕ, String, ◌≡◌, ◌↔◌, Bool, true, List, Option, Equality, ◌==◌, nat_eq, Object, arith,
}

pub data JobStatus : Type 0 where
  queued processing retry completed failed cancelled : JobStatus

abbrev job_status_code : JobStatus → ℕ
job_status_code queued = 0
job_status_code processing = 1
job_status_code retry = 2
job_status_code completed = 3
job_status_code failed = 4
job_status_code cancelled = 5

abbrev job_status_beq : JobStatus → JobStatus → Bool
job_status_beq s t = job_status_code s == job_status_code t

pub job_status_beq_iff : (s t : JobStatus) → (job_status_beq s t ≡ true) ↔ (s ≡ t)
job_status_beq_iff s t = ground arith

instance abbrev pub job_status_eq : Equality JobStatus
job_status_eq = record { test = job_status_beq; test_iff = job_status_beq_iff }

pub record Job : Type 0 where
  pub id : String
  pub import_id : String
  pub file_id : String
  pub status : JobStatus
  pub attempts : ℕ
  pub max_attempts : ℕ
  pub checkpoint : Object
  pub error : Option String
  pub locked_by : Option String
  pub locked_at : Option ℕ
  pub next_attempt_at : ℕ
  pub created_at : ℕ
  pub completed_at : Option ℕ

pub record AuditEntry : Type 0 where
  pub import_id : String
  pub event : String
  pub details : Object
  pub actor : String
  pub created_at : ℕ

pub record QueueConfig : Type 0 where
  pub max_job_attempts : ℕ
  pub worker_lease_ms : ℕ
  pub stale_job_timeout_ms : ℕ
  pub retry_base_delay_ms : ℕ

-- The two tables, rows in the order of insertion.
pub record Store : Type 0 where
  pub jobs : List Job
  pub audit : List AuditEntry
