-- ===== src/Risk/Listing.antt =====
-- apps/backend/src/risk/finding.repository.ts: `list`, and the runs of scans.
use identity_access_graph.Prelude.{
  ℕ, min, max, String, Bool, true, ◌&&◌, ◌||◌, List, [], ◌∷◌, ◌++◌, Option, none, some, ◌==◌,
  nat_eq, string_eq, if◌then◌else◌, leb, filter, includes, find, any, take, drop,
}
use identity_access_graph.Risk.Types.{
  finding_status_eq, severity_eq, category_eq, RiskFinding, FindingFilters, RiskScanRun,
}
use identity_access_graph.Risk.Repository.{Repository}
use identity_access_graph.Risk.Scan.{or_default}

-- `!filter || test(filter)`; a filter by an empty text is none.
abbrev given {ℓ} : {A : Type ℓ} → Option A → (A → Bool) → Bool
given none p = true
given (some a) p = p a

abbrev given_text : Option String → (String → Bool) → Bool
given_text none p = true
given_text (some t) p = t == "" || p t

abbrev pub selects : FindingFilters → RiskFinding → Bool
selects q f =
    given q.severity (λ s. f.severity == s)
    && given q.category (λ k. f.category == k)
    && given q.status (λ s. f.status == s)
    && given_text q.source_system (λ s. includes f.source_systems s)
    && given_text q.node_id (λ n. includes f.affected_nodes n)
    && given_text q.rule_id (λ r. f.rule_id == r)

-- `sort((a, b) => b.score - a.score)`, which is stable.
abbrev pub insert_finding : RiskFinding → List RiskFinding → List RiskFinding
insert_finding f [] = f ∷ []
insert_finding f (g ∷ gs) =
    let rest = insert_finding f gs in if leb g.score f.score then f ∷ g ∷ gs else g ∷ rest

abbrev pub sort_findings : List RiskFinding → List RiskFinding
sort_findings [] = []
sort_findings (f ∷ fs) = insert_finding f (sort_findings fs)

unfoldable pub list_findings : FindingFilters → Repository → List RiskFinding
list_findings q r =
    let all = sort_findings (filter (selects q) r.findings) in
    let offset = max 0 (or_default q.offset 0) in
    let limit = min 5000 (max 1 (or_default q.limit 100)) in take limit (drop offset all)

abbrev pub find_run : String → List RiskScanRun → Option RiskScanRun
find_run id runs = find (λ run. run.id == id) runs

-- `this.scans[index] = run`, at the first run of this identifier.
abbrev pub replace_run : RiskScanRun → List RiskScanRun → List RiskScanRun
replace_run run [] = []
replace_run run (s ∷ ss) =
    let rest = replace_run run ss in if s.id == run.id then run ∷ ss else s ∷ rest

abbrev pub max_scans : ℕ
max_scans = 200

unfoldable pub save_scan : RiskScanRun → Repository → Repository
save_scan run r =
    let scans =
      if any (λ s. s.id == run.id) r.scans then replace_run run r.scans else run ∷ r.scans in
    record r { scans = take max_scans scans; saved_scans = r.saved_scans ++ run ∷ [] }

unfoldable pub scans_list : Option ℕ → Repository → List RiskScanRun
scans_list limit r = take (min max_scans (max 1 (or_default limit 50))) r.scans
