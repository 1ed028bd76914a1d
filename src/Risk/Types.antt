-- ===== src/Risk/Types.antt =====
-- apps/backend/src/risk/risk.types.ts: findings, filters and scan runs.
--
-- Texts of times are opaque. `confidence` is in thousandths.
use identity_access_graph.Prelude.{
  ℕ, String, ◌≡◌, ◌↔◌, true, List, Option, Equality, ◌==◌, nat_eq, Object, arith,
}

pub data FindingStatus : Type 0 where
  opened acknowledged resolved suppressed : FindingStatus

pub data FindingSeverity : Type 0 where
  info low medium high critical : FindingSeverity

pub data FindingCategory : Type 0 where
  privilege account access configuration identity infrastructure : FindingCategory
  segregation_of_duties lateral_movement data_exposure : FindingCategory

abbrev status_code : FindingStatus → ℕ
status_code opened = 0
status_code acknowledged = 1
status_code resolved = 2
status_code suppressed = 3

abbrev pub severity_code : FindingSeverity → ℕ
severity_code info = 0
severity_code low = 1
severity_code medium = 2
severity_code high = 3
severity_code critical = 4

abbrev category_code : FindingCategory → ℕ
category_code privilege = 0
category_code account = 1
category_code access = 2
category_code configuration = 3
category_code identity = 4
category_code infrastructure = 5
category_code segregation_of_duties = 6
category_code lateral_movement = 7
category_code data_exposure = 8

pub status_test_iff : (s t : FindingStatus) → ((status_code s == status_code t) ≡ true) ↔ (s ≡ t)
status_test_iff s t = ground arith

pub severity_test_iff :
    (s t : FindingSeverity) → ((severity_code s == severity_code t) ≡ true) ↔ (s ≡ t)
severity_test_iff s t = ground arith

pub category_test_iff :
    (s t : FindingCategory) → ((category_code s == category_code t) ≡ true) ↔ (s ≡ t)
category_test_iff s t = ground arith

instance abbrev pub finding_status_eq : Equality FindingStatus
finding_status_eq = record {
  test = λ s t. status_code s == status_code t;
  test_iff = status_test_iff;
}

instance abbrev pub severity_eq : Equality FindingSeverity
severity_eq = record {
  test = λ s t. severity_code s == severity_code t;
  test_iff = severity_test_iff;
}

instance abbrev pub category_eq : Equality FindingCategory
category_eq = record {
  test = λ s t. category_code s == category_code t;
  test_iff = category_test_iff;
}

pub record ScoreFactor : Type 0 where
  pub factor : String
  pub score : ℕ
  pub reason : String

pub record RiskFinding : Type 0 where
  pub id : String
  pub rule_id : String
  pub title : String
  pub description : String
  pub category : FindingCategory
  pub severity : FindingSeverity
  pub confidence : ℕ
  pub status : FindingStatus
  pub score : ℕ
  pub score_factors : List ScoreFactor
  pub affected_nodes : List String
  pub affected_relationships : List String
  pub evidence_paths : List (List String)
  pub source_systems : List String
  pub first_detected : String
  pub last_detected : String
  pub remediation_guidance : String
  pub metadata : Object

pub record FindingFilters : Type 0 where
  pub severity : Option FindingSeverity
  pub category : Option FindingCategory
  pub status : Option FindingStatus
  pub source_system : Option String
  pub node_id : Option String
  pub rule_id : Option String
  pub limit : Option ℕ
  pub offset : Option ℕ

pub data RunStatus : Type 0 where
  running completed failed : RunStatus

pub record RiskScanRun : Type 0 where
  pub id : String
  pub status : RunStatus
  pub graph_source : String
  pub rule_ids : List String
  pub rules_run : ℕ
  pub findings_detected : ℕ
  pub findings_resolved : ℕ
  pub duration_ms : Option ℕ
  pub error : Option String
  pub started_at : String
  pub completed_at : Option String
