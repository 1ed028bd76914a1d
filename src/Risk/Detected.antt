-- ===== src/Risk/Detected.antt =====
-- What a scan of apps/backend/src/risk/risk.service.ts makes of each finding.
use identity_access_graph.Prelude.{
  ℕ, String, ◌≡◌, refl, sym, subst, ap, Bool, true, false, List, [], ◌∷◌, map, Option, some, inl,
  inr, ◌==◌, string_eq, Bool-cases, if◌then◌else◌, includes, All, All-append, arith, ◌∙◌, min, max,
}
use identity_access_graph.Risk.Types.{
  FindingStatus, opened, resolved, suppressed, finding_status_eq, RiskFinding,
}
use identity_access_graph.Risk.Repository.{Repository, find_finding, merged, upsert, reconcile}
use identity_access_graph.Risk.Lookup.{find-upsert_self, find-upsert_ne, find-id}
use identity_access_graph.Risk.Reconcile.{reconciled, reconcile-find}
use identity_access_graph.Risk.Scan.{
  Services, RiskRule, RuleMatch, GraphSnapshot, make_finding, rule_findings, scan_findings,
  upsert_all, scan_graph, or_default,
}

-- What the status of a stored finding becomes when it is detected.
abbrev pub redetected : FindingStatus → FindingStatus
redetected st = if st == resolved then opened else st

abbrev pub IsOpened : RiskFinding → Type 0
IsOpened f = f.status ≡ opened

-- The finding of this identifier keeps its first detection, and has the status given.
abbrev pub Stands : String → FindingStatus → String → Repository → Type 0
Stands id st at r =
    (f : RiskFinding) × (find_finding id r.findings ≡ some f)
    × (f.status ≡ st)
    × (f.first_detected ≡ at)

redetected-twice : (st : FindingStatus) → redetected (redetected st) ≡ redetected st
redetected-twice st = ground arith

upsert-Stands :
    (f old : RiskFinding) (r : Repository)
    → IsOpened f
    → find_finding f.id r.findings ≡ some old
    → Stands f.id (redetected old.status) old.first_detected (upsert f r)
upsert-Stands f old r o e =
    (merged (some old) f, find-upsert_self f r ∙ ap (λ x. some (merged x f)) e, rw o refl, refl)

settled :
    (b : Bool) (st old : FindingStatus)
    → st ≡ redetected old
    → (if b then redetected st else st) ≡ redetected old
settled true st old e = ap redetected e ∙ redetected-twice old
settled false st old e = e

-- Detected once or more, or not at all.
upsert_all-found :
    (fs : List RiskFinding) (id : String) (old : RiskFinding) (r : Repository)
    → All IsOpened fs
    → find_finding id r.findings ≡ some old
    → Stands id
        (if includes (map (λ f. f.id) fs) id then redetected old.status else old.status)
        old.first_detected
        (upsert_all fs r)
upsert_all-found [] id old r a e = (old, e, refl, refl)
upsert_all-found (f ∷ fs) id old r (o, a) e = elim (Bool-cases (f.id == id)) [
  | inl h ↦
      let i = (string_eq.test_iff f.id id).0 h in
      let e' = subst (λ x. find_finding x r.findings ≡ some old) (sym i) e in
      let (g, k, s, t) = upsert-Stands f old r o e' in
      let k' = subst (λ x. find_finding x (upsert f r).findings ≡ some g) i k in
      let (g', k'', s', t') = upsert_all-found fs id g (upsert f r) a k' in
      rw h (g', k'', s' ∙ settled (includes (map (λ f. f.id) fs) id) g.status old.status s, t' ∙ t)
  | inr h ↦ rw h (
      upsert_all-found fs id old (upsert f r) a
        (find-upsert_ne f id r (λ i. cc (h, (string_eq.test_iff f.id id).1 i)) ∙ e))
]

-- The status of a stored finding behind a scan of `rule_ids` that detected `found`.
abbrev pub scanned_status : Bool → Bool → FindingStatus → FindingStatus
scanned_status true scanned st = redetected st
scanned_status false true st = if st == suppressed then suppressed else resolved
scanned_status false false st = st

upsert_all-undetected :
    (fs : List RiskFinding) (id : String) (r : Repository)
    → includes (map (λ f. f.id) fs) id ≡ false
    → find_finding id (upsert_all fs r).findings ≡ find_finding id r.findings
upsert_all-undetected [] id r n = refl
upsert_all-undetected (f ∷ fs) id r n = elim (Bool-cases (f.id == id)) [
  | inl h ↦ ground (arith, h, n)
  | inr h ↦
      upsert_all-undetected fs id (upsert f r) (ground (arith, h, n))
      ∙ find-upsert_ne f id r (λ i. cc (h, (string_eq.test_iff f.id id).1 i))
]

module _ {R : Type 0} (c : Services R) (graph : GraphSnapshot R) (now : String) where
  matches-IsOpened :
      (rule : RiskRule R) (ms : List RuleMatch)
      → All IsOpened (map (make_finding c graph now rule) ms)
  unfolding make_finding
  matches-IsOpened rule [] = tt
  matches-IsOpened rule (m ∷ ms) = (refl, matches-IsOpened rule ms)

  scan_findings-IsOpened :
      (depth : ℕ) (rules : List (RiskRule R)) → All IsOpened (scan_findings c graph now depth rules)
  scan_findings-IsOpened depth [] = tt
  scan_findings-IsOpened depth (rule ∷ rules) =
      All-append IsOpened (rule_findings c graph now depth rule)
        (scan_findings c graph now depth rules) (matches-IsOpened rule (rule.detect graph depth))
        (scan_findings-IsOpened depth rules)

module _ (rule_ids detected_ids : List String) (at : String) where
  reconciled-detected :
      (f : RiskFinding)
      → includes detected_ids f.id ≡ true
      → reconciled rule_ids detected_ids at f ≡ f
  reconciled-detected f h = elim (Bool-cases (includes rule_ids f.rule_id)) [
    | inl e ↦ rw (e, h) refl
    | inr e ↦ rw e refl
  ]

  reconciled-undetected :
      (f : RiskFinding)
      → includes detected_ids f.id ≡ false
      → ((reconciled rule_ids detected_ids at f).status
          ≡ scanned_status false (includes rule_ids f.rule_id) f.status)
        × ((reconciled rule_ids detected_ids at f).first_detected ≡ f.first_detected)
  reconciled-undetected f h = elim (Bool-cases (includes rule_ids f.rule_id)) [
    | inl e ↦ rw (e, h) (ground arith, ground arith)
    | inr e ↦ rw e (refl, refl)
  ]

if-detected : (b : Bool) (x y : FindingStatus) → b ≡ true → (if b then x else y) ≡ x
if-detected b x y h = rw h refl

at_detected :
    (b scanned : Bool) (st : FindingStatus) → b ≡ true → redetected st ≡ scanned_status b scanned st
at_detected b scanned st h = rw h refl

at_undetected :
    (b scanned : Bool) (st : FindingStatus)
    → b ≡ false
    → scanned_status false scanned st ≡ scanned_status b scanned st
at_undetected b scanned st h = rw h refl

-- The findings are stored, and the rest of their rules' findings is resolved.
upsert_all-reconcile :
    (rule_ids : List String) (found : List RiskFinding) (now id : String) (old : RiskFinding)
    (r : Repository)
    → All IsOpened found
    → find_finding id r.findings ≡ some old
    → Stands id
        (scanned_status
          (includes (map (λ f. f.id) found) id)
          (includes rule_ids old.rule_id)
          old.status)
        old.first_detected
        (reconcile rule_ids (map (λ f. f.id) found) now (upsert_all found r)).1
upsert_all-reconcile rule_ids found now id old r a e =
    let ids = map (λ f. f.id) found in
    let scanned = includes rule_ids old.rule_id in
    let stored = upsert_all found r in
    elim (Bool-cases (includes ids id)) [
      | inl h ↦
          let (g, k, s, t) = upsert_all-found found id old r a e in
          let h' = subst (λ x. includes ids x ≡ true) (sym (find-id id stored.findings g k)) h in
          (
            g,
            reconcile-find rule_ids ids now id g stored k
                ∙ ap some (reconciled-detected rule_ids ids now g h'),
            s
                ∙ if-detected (includes ids id) (redetected old.status) old.status h
                ∙ at_detected (includes ids id) scanned old.status h,
            t,
          )
      | inr h ↦
          let k = upsert_all-undetected found id r h ∙ e in
          let h' = subst (λ x. includes ids x ≡ false) (sym (find-id id r.findings old e)) h in
          let (s, t) = reconciled-undetected rule_ids ids now old h' in
          (
            reconciled rule_ids ids now old,
            reconcile-find rule_ids ids now id old stored k,
            s ∙ at_undetected (includes ids id) scanned old.status h,
            t,
          )
    ]

module _ {R : Type 0} (c : Services R) (graph : GraphSnapshot R) (now : String) where
  -- A scan opens a stored finding that it detects again, unless it is acknowledged or suppressed;
  -- resolves one of a rule that it ran and that it does not detect, unless it is suppressed; leaves
  -- those of other rules as they are; and in no case changes the time of the first detection.
  pub scan-Stands :
      (rules : List (RiskRule R)) (max_depth : Option ℕ) (id : String) (old : RiskFinding)
      (r : Repository)
      → find_finding id r.findings ≡ some old
      → Stands id
          (scanned_status
            (includes
              (map
                (λ f. f.id)
                (scan_findings c graph now (min 10 (max 1 (or_default max_depth 6))) rules))
              id)
            (includes (map (λ rule. rule.id) rules) old.rule_id)
            old.status)
          old.first_detected
          (scan_graph c rules graph max_depth now r).1
  unfolding scan_graph
  scan-Stands rules max_depth id old r e =
      let depth = min 10 (max 1 (or_default max_depth 6)) in
      upsert_all-reconcile (map (λ rule. rule.id) rules) (scan_findings c graph now depth rules) now
        id old r (scan_findings-IsOpened c graph now depth rules) e
