-- ===== src/Worker/Bounds.antt =====
-- apps/backend/src/imports/import-worker.service.ts: how many jobs a worker runs at once.
use identity_access_graph.Prelude.{
  ℕ, zero, suc, ◌+◌, ◌-◌, ◌≤◌, ◌<◌, String, ◌≡◌, refl, List, [], ◌∷◌, Option, none, some, inl, inr,
  Bool-cases, ltb, ltb→lt, lt→ltb, ap, ◌∙◌, length, length-append, arith, max,
}
use identity_access_graph.Queue.Types.{Job}
use identity_access_graph.Queue.Jobs.{Failure}
use identity_access_graph.Worker.Ticks.{
  Worker, WorkerConfig, loop_round, tick, claim_settled, claim_failed, job_settled, remove_job,
}

pub data Event : Type 0 where
  ticks : Event
  claims : Option Job → Event
  claim_fails : String → Event
  ends : ℕ → Option Failure → Event

-- A claim settles only where one is awaited, a job ends only where it runs.
abbrev pub Enabled : Worker → Event → Type 0
Enabled w ticks = Unit
Enabled w (claims o) = 1 ≤ w.waiting
Enabled w (claim_fails m) = 1 ≤ w.waiting
Enabled w (ends k outcome) = k < length w.running

module _ (c : WorkerConfig) where
  unfoldable pub react : Event → ℕ → Worker → Worker
  react ticks now w = tick c now w
  react (claims o) now w = claim_settled c o w
  react (claim_fails m) now w = claim_failed c m w
  react (ends k outcome) now w = job_settled c k outcome now w

  -- The states that events lead to from the start, with the most activations of `tick` that waited
  -- at once.
  pub data Reach : Worker → ℕ → Type 0 where
    new :
        (id : String)
        → Reach
            (record {
              id = id;
              active = 0;
              last_heartbeat = none;
              last_error = none;
              waiting = 0;
              running = [];
            })
            0
    next :
        {w : Worker} {n : ℕ}
        → Reach w n
        → (ev : Event) (now : ℕ) → Enabled w ev
        → Reach (react ev now w) (max n (react ev now w).waiting)

  pub record Inv (w : Worker) (n : ℕ) : Type 0 where
    pub counted : length w.running ≡ w.active
    pub waits : w.waiting ≤ n
    pub bounded : w.active + w.waiting ≤ c.concurrency + (n - 1)

  remove_job-length :
      (k : ℕ) (js : List Job) → k < length js → length (remove_job k js) ≡ length js - 1
  remove_job-length k [] h = omega (arith, h)
  remove_job-length zero (j ∷ js) h = omega arith
  remove_job-length (suc k) (j ∷ js) h = omega (arith, remove_job-length k js (omega (arith, h)), h)

  loop_round-Inv :
      (w : Worker) (n : ℕ) → Inv w n → Inv (loop_round c w) (max n (loop_round c w).waiting)
  unfolding loop_round
  loop_round-Inv w n v = elim (Bool-cases (ltb w.active c.concurrency)) [
    | inl e ↦ rw e (record {
      counted = v.counted;
      waits = omega arith;
      bounded = omega (arith, ltb→lt _ _ e, v.waits);
    })
    | inr e ↦
        rw e
          (record { counted = v.counted; waits = omega arith; bounded = omega (arith, v.bounded) })
  ]

  react-Inv :
      (ev : Event) (now : ℕ) (w : Worker) (n : ℕ)
      → Enabled w ev
      → Inv w n
      → Inv (react ev now w) (max n (react ev now w).waiting)
  unfolding react tick claim_settled claim_failed job_settled
  react-Inv ticks now w n h v =
      loop_round-Inv _ n (record { counted = v.counted; waits = v.waits; bounded = v.bounded })
  react-Inv (claims none) now w n h v = record {
    counted = v.counted;
    waits = omega arith;
    bounded = omega (arith, v.bounded);
  }
  react-Inv (claims (some j)) now w n h v = loop_round-Inv _ n (record {
    counted = omega (arith, length-append w.running (j ∷ []), v.counted);
    waits = omega (arith, v.waits);
    bounded = omega (arith, v.bounded, h);
  })
  react-Inv (claim_fails m) now w n h v = record {
    counted = v.counted;
    waits = omega arith;
    bounded = omega (arith, v.bounded);
  }
  react-Inv (ends k outcome) now w n h v = loop_round-Inv _ n (record {
    counted = omega (arith, remove_job-length k w.running h, v.counted);
    waits = v.waits;
    bounded = omega (arith, v.bounded);
  })

  Reach-Inv : {w : Worker} {n : ℕ} → Reach w n → Inv w n
  Reach-Inv (new id) = record { counted = refl; waits = omega arith; bounded = omega arith }
  Reach-Inv (next {w} {n} r ev now h) = react-Inv ev now w n h (Reach-Inv r)

  -- The jobs that run are as many as `active` says, and at most the concurrency, if no two
  -- activations of `tick` ever wait for a claim at once; each further one that does may add a job.
  pub Reach-active :
      {w : Worker} {n : ℕ}
      → Reach w n
      → (length w.running ≡ w.active) × (w.active ≤ c.concurrency + (n - 1))
  Reach-active r = let v = Reach-Inv r in (v.counted, omega (arith, v.bounded))

  tick-waits :
      (w : Worker)
      → 1 ≤ c.concurrency
      → w.active ≡ 0
      → ((react ticks 0 w).active ≡ 0) × ((react ticks 0 w).waiting ≡ suc w.waiting)
  unfolding react tick loop_round
  tick-waits w h e = rw (e, lt→ltb 0 c.concurrency (omega (arith, h))) (refl, refl)

  all_tick :
      (k : ℕ)
      → 1 ≤ c.concurrency
      → (w : Worker) × (n : ℕ) × Reach w n × (w.active ≡ 0) × (w.waiting ≡ k)
  all_tick zero h = (_, 0, new "worker", refl, refl)
  all_tick (suc k) h =
      let (w, n, r, a, b) = all_tick k h in
      let (a', b') = tick-waits w h a in
      (react ticks 0 w, max n (react ticks 0 w).waiting, next r ticks 0 tt, a', b' ∙ ap suc b)

  claim-adds :
      (job : Job) (w : Worker)
      → ((react (claims (some job)) 0 w).active ≡ suc w.active)
        × (w.waiting - 1 ≤ (react (claims (some job)) 0 w).waiting)
  unfolding react claim_settled loop_round
  claim-adds job w = elim (Bool-cases (ltb (suc w.active) c.concurrency)) [
    | inl e ↦ rw e (refl, omega arith)
    | inr e ↦ rw e (refl, omega arith)
  ]

  all_claim :
      (k : ℕ) (job : Job) (w : Worker) (n : ℕ)
      → Reach w n
      → k ≤ w.waiting
      → (v : Worker) × (m : ℕ) × Reach v m × (v.active ≡ w.active + k)
  all_claim zero job w n r h = (w, n, r, omega arith)
  all_claim (suc k) job w n r h =
      let w' = react (claims (some job)) 0 w in
      let (a, b) = claim-adds job w in
      let (v, m, q, e) =
        all_claim k job w' (max n w'.waiting) (next r (claims (some job)) 0 (omega (arith, h)))
          (omega (arith, b, h)) in
      (v, m, q, omega (arith, e, a))

  -- However small the concurrency is, if it is not zero, any number of jobs may run at once: the
  -- test of the loop and the count of the job are on two sides of an await.
  pub active-unbounded :
      (k : ℕ) (job : Job)
      → 1 ≤ c.concurrency
      → (w : Worker) × (n : ℕ) × Reach w n × (length w.running ≡ k)
  active-unbounded k job h =
      let (w, n, r, a, b) = all_tick k h in
      let (v, m, q, e) = all_claim k job w n r (omega (arith, b)) in
      (v, m, q, omega (arith, (Reach-active q).0, e, a))
