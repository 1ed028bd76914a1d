-- ===== src/Risk/Runs.antt =====
-- apps/backend/src/risk/finding.repository.ts: `saveScan` and `setStatus`.
use identity_access_graph.Prelude.{
  length-take, take-all, suc, ◌≤◌, String, ◌≡◌, ◌≢◌, refl, sym, ap, subst, true, List, [], ◌∷◌,
  some, inl, inr, ◌==◌, ==_refl, string_eq, Bool-cases, any, length, arith, ◌∙◌,
}
use identity_access_graph.Risk.Types.{
  FindingStatus, opened, acknowledged, resolved, suppressed, finding_status_eq, RiskFinding,
  RiskScanRun,
}
use identity_access_graph.Risk.Repository.{
  Repository, find_finding, put_finding, merged, set_status, upsert,
}
use identity_access_graph.Risk.Lookup.{
  find-put_self, find-put_ne, find-upsert_self, find-upsert_ne, find-id,
}
use identity_access_graph.Risk.Listing.{find_run, replace_run, max_scans, save_scan}

length-replace_run :
    (run : RiskScanRun) (ss : List RiskScanRun) → length (replace_run run ss) ≡ length ss
length-replace_run run [] = refl
length-replace_run run (s ∷ ss) = elim (Bool-cases (s.id == run.id)) [
  | inl e ↦ rw e refl
  | inr e ↦ rw e (ap suc (length-replace_run run ss))
]

find-replace_run :
    (run : RiskScanRun) (ss : List RiskScanRun)
    → any (λ s. s.id == run.id) ss ≡ true
    → find_run run.id (replace_run run ss) ≡ some run
find-replace_run run [] h = cc h
find-replace_run run (s ∷ ss) h = elim (Bool-cases (s.id == run.id)) [
  | inl e ↦ rw (e, ==_refl run.id) refl
  | inr e ↦ rw (e, e) (find-replace_run run ss (ground (arith, h, e)))
]

-- If at most 200 runs are kept, at most 200 are kept behind a save, and the run that was saved is
-- the one that its identifier stands for.
pub save_scan-find :
    (run : RiskScanRun) (r : Repository)
    → length r.scans ≤ max_scans
    → (length (save_scan run r).scans ≤ max_scans)
      × (find_run run.id (save_scan run r).scans ≡ some run)
unfolding save_scan
save_scan-find run r h = elim (Bool-cases (any (λ s. s.id == run.id) r.scans)) [
  | inl e ↦ rw e (
    omega (arith, length-take max_scans (replace_run run r.scans)),
    ap (find_run run.id) (
          take-all max_scans (replace_run run r.scans)
            (omega (arith, length-replace_run run r.scans, h)))
        ∙ find-replace_run run r.scans e,
  )
  | inr e ↦ rw e (omega (arith, length-take max_scans (run ∷ r.scans)), rw (==_refl run.id) refl)
]

set-status-same :
    (old : RiskFinding) (st : FindingStatus)
    → merged (some (record old { status = st })) (record old { status = st })
      ≡ record old { status = st }
set-status-same old opened = refl
set-status-same old acknowledged = refl
set-status-same old resolved = refl
set-status-same old suppressed = refl

-- An operator sets a status, any of the four, and finds it set; the rest of the finding, its first
-- detection with it, and the other findings stay as they are.
pub set_status-find :
    (id : String) (st : FindingStatus) (old : RiskFinding) (r : Repository)
    → find_finding id r.findings ≡ some old
    → ((set_status id st r).0 ≡ some (record old { status = st }))
      × (find_finding id (set_status id st r).1.findings ≡ some (record old { status = st }))
      × ((other : String)
          → id ≢ other
          → find_finding other (set_status id st r).1.findings ≡ find_finding other r.findings)
unfolding set_status
set_status-find id st old r e =
    let f = record old { status = st } in
    let i = find-id id r.findings old e in
    let r' = record r { findings = put_finding f r.findings } in
    rw e (
      refl,
      subst (λ x. find_finding x (upsert f r').findings ≡ some f) i
          (find-upsert_self f r'
            ∙ ap (λ o. some (merged o f)) (find-put_self f r.findings)
            ∙ ap some (set-status-same old st)),
      λ other n.
          find-upsert_ne f other r' (λ k. n (sym i ∙ k))
          ∙ find-put_ne f other r.findings (λ k. n (sym i ∙ k)),
    )
