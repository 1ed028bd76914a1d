-- ===== src/Risk/Repository.antt =====
-- apps/backend/src/risk/finding.repository.ts: `FindingRepository`.
--
-- The map from identifiers to findings is the list of its values in insertion order: a finding is
-- kept under its own identifier. The calls on the optional store are the lists `saved` and
-- `saved_scans`.
use identity_access_graph.Prelude.{
  ℕ, ◌+◌, String, Bool, not, ◌||◌, List, [], ◌∷◌, ◌++◌, map, Option, none, some, ◌==◌, nat_eq,
  string_eq, if◌then◌else◌, includes, find, str, set,
}
use identity_access_graph.Risk.Types.{
  FindingStatus, opened, resolved, suppressed, finding_status_eq, severity_eq, category_eq,
  RiskFinding, RiskScanRun,
}

pub record Repository : Type 0 where
  pub findings : List RiskFinding
  pub latest_scan : Option (String × ℕ)
  pub scans : List RiskScanRun
  pub saved : List RiskFinding
  pub saved_scans : List RiskScanRun

-- `findings.get(id)`.
abbrev pub find_finding : String → List RiskFinding → Option RiskFinding
find_finding id fs = find (λ f. f.id == id) fs

-- `findings.set(f.id, f)`: an old key keeps its place.
abbrev pub put_finding : RiskFinding → List RiskFinding → List RiskFinding
put_finding f [] = f ∷ []
put_finding f (g ∷ gs) = let rest = put_finding f gs in if g.id == f.id then f ∷ gs else g ∷ rest

-- The status and the first detection of a finding that is written over `old`.
abbrev pub next_status : Option RiskFinding → FindingStatus → FindingStatus
next_status none st = st
next_status (some old) resolved = resolved
next_status (some old) st = if old.status == resolved then opened else old.status

abbrev pub first_detected_of : Option RiskFinding → String → String
first_detected_of none at = at
first_detected_of (some old) at = old.first_detected

abbrev pub merged : Option RiskFinding → RiskFinding → RiskFinding
merged old next = record next {
  status = next_status old next.status;
  first_detected = first_detected_of old next.first_detected;
}

unfoldable pub upsert : RiskFinding → Repository → Repository
upsert next r =
    let value = merged (find_finding next.id r.findings) next in
    record r { findings = put_finding value r.findings; saved = r.saved ++ value ∷ [] }

-- `finding.status = status` changes the object that the map holds.
abbrev pub write_status :
    Option RiskFinding → FindingStatus → Repository → Option RiskFinding × Repository
write_status none status r = (none, r)
write_status (some f) status r =
    let finding = record f { status = status } in
    (some finding, upsert finding (record r { findings = put_finding finding r.findings }))

unfoldable pub set_status : String → FindingStatus → Repository → Option RiskFinding × Repository
set_status id status r = write_status (find_finding id r.findings) status r

unfoldable pub set_scan : ℕ → String → Repository → Repository
set_scan duration_ms now r = record r { latest_scan = some (now, duration_ms) }

-- The test of `reconcile` that passes a finding over.
abbrev pub passed_over : List String → List String → RiskFinding → Bool
passed_over rule_ids detected_ids f =
    not (includes rule_ids f.rule_id)
    || includes detected_ids f.id
    || f.status == resolved
    || f.status == suppressed

abbrev pub resolved_finding : String → RiskFinding → RiskFinding
resolved_finding at f = record f {
  status = resolved;
  metadata = set (set f.metadata "resolution" (str "NO_LONGER_DETECTED")) "resolvedAt" (str at);
}

abbrev pub resolve_finding : String → RiskFinding → Repository → Repository
resolve_finding at f r =
    let finding = resolved_finding at f in
    upsert finding (record r { findings = put_finding finding r.findings })

module _ (rule_ids detected_ids : List String) (at : String) where
  abbrev pub reconcile_one : Option RiskFinding → Repository → ℕ × Repository
  reconcile_one none r = (0, r)
  reconcile_one (some f) r =
      if passed_over rule_ids detected_ids f then (0, r) else (1, resolve_finding at f r)

  -- The loop visits the keys in order, and reads the value of each when it comes to it.
  unfoldable pub reconcile_keys : List String → Repository → ℕ × Repository
  reconcile_keys [] r = (0, r)
  reconcile_keys (id ∷ ids) r =
      let (n, r') = reconcile_one (find_finding id r.findings) r in
      let (m, r'') = reconcile_keys ids r' in (n + m, r'')

  unfoldable pub reconcile : Repository → ℕ × Repository
  unfolding reconcile_keys
  reconcile r = reconcile_keys (map (λ f. f.id) r.findings) r
