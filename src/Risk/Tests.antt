-- ===== src/Risk/Tests.antt =====
-- The theorems on risk findings at concrete findings and rules.
use identity_access_graph.Prelude.{
  ℕ, ◌≤◌, String, ◌≡◌, ◌≢◌, refl, true, [], ◌∷◌, none, some, length, end, All, arith,
}
use identity_access_graph.Risk.Types.{
  FindingStatus, opened, acknowledged, resolved, suppressed, high, access, RiskFinding,
  FindingFilters, RiskScanRun, running,
}
use identity_access_graph.Risk.Repository.{Repository, find_finding, set_status}
use identity_access_graph.Risk.Scan.{
  stable_finding_id, Services, RiskRule, GraphSnapshot, scan_graph, make_finding,
}
use identity_access_graph.Risk.Detected.{Stands, scan-Stands}
use identity_access_graph.Risk.Listing.{selects, list_findings, find_run, save_scan}
use identity_access_graph.Risk.Ranking.{IsRanked, list_findings-page}
use identity_access_graph.Risk.Runs.{save_scan-find, set_status-find}

abbrev a_finding : String → FindingStatus → RiskFinding
a_finding id st = record {
  id = id;
  rule_id = "stale";
  title = "Stale account";
  description = "";
  category = access;
  severity = high;
  confidence = 735;
  status = st;
  score = 55;
  score_factors = [];
  affected_nodes = "bob" ∷ [];
  affected_relationships = [];
  evidence_paths = [];
  source_systems = [];
  first_detected = "monday";
  last_detected = "monday";
  remediation_guidance = "";
  metadata = end;
}

abbrev repository : Repository
repository = record {
  findings =
      a_finding "finding-stale|a" resolved ∷ a_finding "b" opened ∷ a_finding "c" suppressed ∷ [];
  latest_scan = none;
  scans = [];
  saved = [];
  saved_scans = [];
}

-- The digest is the text itself.
abbrev services : Services ℕ
services = record {
  digest = λ t. t;
  score = λ graph m base. record {
    total_score = base;
    factor_scores = [];
    severity = high;
    confidence = 735;
  };
}

abbrev stale_rule : RiskRule ℕ
stale_rule = record {
  id = "stale";
  title = "Stale account";
  category = access;
  default_severity = high;
  remediation = "";
  detect = λ graph depth.
      record {
        nodes = "a" ∷ [];
        relationships = none;
        path = none;
        metadata = none;
        description = none;
      }
      ∷ [];
}

abbrev graph : GraphSnapshot ℕ
graph = record { nodes = []; relationships = [] }

-- What was resolved is detected again.
scan-Stands_example :
    Stands "finding-stale|a" opened "monday"
      (scan_graph services (stale_rule ∷ []) graph none "friday" repository).1
unfolding make_finding stable_finding_id
scan-Stands_example =
    scan-Stands services graph "friday" (stale_rule ∷ []) none "finding-stale|a"
      (a_finding "finding-stale|a" resolved) repository refl

abbrev everything : FindingFilters
everything = record {
  severity = some high;
  category = none;
  status = none;
  source_system = none;
  node_id = some "bob";
  rule_id = none;
  limit = some 2;
  offset = some 1;
}

list_findings-page_example :
    All (λ f. selects everything f ≡ true) (list_findings everything repository)
    × IsRanked (list_findings everything repository)
    × (length (list_findings everything repository) ≡ 2)
list_findings-page_example = list_findings-page everything repository

abbrev a_run : RiskScanRun
a_run = record {
  id = "run";
  status = running;
  graph_source = "auto";
  rule_ids = "stale" ∷ [];
  rules_run = 0;
  findings_detected = 0;
  findings_resolved = 0;
  duration_ms = none;
  error = none;
  started_at = "friday";
  completed_at = none;
}

save_scan-find_example :
    (length (save_scan a_run repository).scans ≤ 200)
    × (find_run "run" (save_scan a_run repository).scans ≡ some a_run)
save_scan-find_example = save_scan-find a_run repository (omega arith)

acknowledged_found :
    ((set_status "b" acknowledged repository).0 ≡ some (a_finding "b" acknowledged))
    × (find_finding "b" (set_status "b" acknowledged repository).1.findings
        ≡ some (a_finding "b" acknowledged))
    × ((other : String)
        → "b" ≢ other
        → find_finding other (set_status "b" acknowledged repository).1.findings
          ≡ find_finding other repository.findings)
acknowledged_found = set_status-find "b" acknowledged (a_finding "b" opened) repository refl
