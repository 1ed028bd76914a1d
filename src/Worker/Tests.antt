-- ===== src/Worker/Tests.antt =====
-- The theorems on the worker at a concrete configuration.
use identity_access_graph.Prelude.{ℕ, ◌≤◌, ◌≡◌, [], none, some, length, end, arith}
use identity_access_graph.Queue.Types.{Job, queued}
use identity_access_graph.Worker.Ticks.{Worker, WorkerConfig, tick, loop_round, claim_settled}
use identity_access_graph.Worker.Bounds.{
  ticks, claims, react, Reach, new, next, Reach-active, active-unbounded,
}

abbrev settings : WorkerConfig
settings = record {
  concurrency = 2;
  queue = record {
    max_job_attempts = 3;
    worker_lease_ms = 10;
    stale_job_timeout_ms = 20;
    retry_base_delay_ms = 100;
  };
}

abbrev a_job : Job
a_job = record {
  id = "job";
  import_id = "import";
  file_id = "file";
  status = queued;
  attempts = 0;
  max_attempts = 3;
  checkpoint = end;
  error = none;
  locked_by = none;
  locked_at = none;
  next_attempt_at = 0;
  created_at = 0;
  completed_at = none;
}

abbrev fresh : Worker
fresh = record {
  id = "worker";
  active = 0;
  last_heartbeat = none;
  last_error = none;
  waiting = 0;
  running = [];
}

abbrev after_tick : Worker
after_tick = react settings ticks 5 fresh

abbrev after_claim : Worker
after_claim = react settings (claims (some a_job)) 6 after_tick

Reach-active_example : (length after_claim.running ≡ after_claim.active) × (after_claim.active ≤ 2)
unfolding react tick loop_round claim_settled
Reach-active_example =
    Reach-active settings
      (next (next (new "worker") ticks 5 tt) (claims (some a_job)) 6 (omega arith))

active-unbounded_example : (w : Worker) × (n : ℕ) × Reach settings w n × (length w.running ≡ 7)
active-unbounded_example = active-unbounded settings 7 a_job (omega arith)
