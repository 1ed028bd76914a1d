-- ===== src/Risk/Scan.antt =====
-- apps/backend/src/risk/risk.service.ts: what a scan detects and resolves.
--
-- Parameters: the rules (apps/backend/src/risk/rules), the scores (risk-scoring.service.ts), and the
-- digest of node:crypto. Texts are sorted by their code points.
use Prim.Native.String.{compare}
use text.Mathlib.Text.{is_le}
use identity_access_graph.Prelude.{
  ℕ, String, List, [], ◌∷◌, ◌++◌, map, Option, none, some, nat_eq, string_eq, if◌then◌else◌, filter,
  includes, min, max, Object, end, ◌+s◌,
}
use identity_access_graph.Risk.Types.{
  opened, FindingSeverity, info, low, medium, high, critical, FindingCategory, ScoreFactor,
  RiskFinding,
}
use identity_access_graph.Risk.Repository.{Repository, upsert, reconcile}

pub record GraphNode : Type 0 where
  pub id : String
  pub display_name : String
  pub source_system : String
  pub properties : Object

pub record GraphSnapshot (R : Type 0) : Type 0 where
  pub nodes : List GraphNode
  pub relationships : List R

pub record RuleMatch : Type 0 where
  pub nodes : List String
  pub relationships : Option (List String)
  pub path : Option (List String)
  pub metadata : Option Object
  pub description : Option String

pub record RiskScore : Type 0 where
  pub total_score : ℕ
  pub factor_scores : List ScoreFactor
  pub severity : FindingSeverity
  pub confidence : ℕ

pub record RiskRule (R : Type 0) : Type 0 where
  pub id : String
  pub title : String
  pub category : FindingCategory
  pub default_severity : FindingSeverity
  pub remediation : String
  pub detect : GraphSnapshot R → ℕ → List RuleMatch

pub record Services (R : Type 0) : Type 0 where
  -- the first 20 hexadecimal digits of the digest by SHA-256
  pub digest : String → String
  pub score : GraphSnapshot R → RuleMatch → ℕ → RiskScore

abbrev pub base_score : FindingSeverity → ℕ
base_score info = 5
base_score low = 12
base_score medium = 25
base_score high = 45
base_score critical = 65

abbrev pub or_default {ℓ} : {A : Type ℓ} → Option A → A → A
or_default none d = d
or_default (some a) d = a

abbrev pub join : String → List String → String
join sep [] = ""
join sep (t ∷ []) = t
join sep (t ∷ u ∷ ts) = t +s sep +s join sep (u ∷ ts)

-- `[...new Set(texts)]`.
abbrev pub distinct_from : List String → List String → List String
distinct_from seen [] = []
distinct_from seen (t ∷ ts) =
    let rest = distinct_from seen ts in
    let more = distinct_from (t ∷ seen) ts in if includes seen t then rest else t ∷ more

-- `[...texts].sort()`.
abbrev insert_text : String → List String → List String
insert_text t [] = t ∷ []
insert_text t (u ∷ us) =
    let rest = insert_text t us in if is_le (compare t u) then t ∷ u ∷ us else u ∷ rest

abbrev pub sort_texts : List String → List String
sort_texts [] = []
sort_texts (t ∷ ts) = insert_text t (sort_texts ts)

unfoldable pub stable_finding_id : (String → String) → String → List String → List String → String
stable_finding_id digest rule_id nodes relationships =
    "finding-" +s digest (join "|" (rule_id ∷ sort_texts nodes ++ sort_texts relationships))

module _ {R : Type 0} (c : Services R) (graph : GraphSnapshot R) (now : String) where
  unfoldable pub make_finding : RiskRule R → RuleMatch → RiskFinding
  make_finding rule match_ =
      let id =
        stable_finding_id c.digest rule.id match_.nodes (or_default match_.relationships []) in
      let score = c.score graph match_ (base_score rule.default_severity) in
      let nodes = filter (λ n. includes match_.nodes n.id) graph.nodes in
      record {
        id = id;
        rule_id = rule.id;
        title = rule.title;
        description =
            or_default match_.description
              (rule.title +s " affects " +s join ", " (map (λ n. n.display_name) nodes));
        category = rule.category;
        severity = score.severity;
        confidence = score.confidence;
        status = opened;
        score = score.total_score;
        score_factors = score.factor_scores;
        affected_nodes = match_.nodes;
        affected_relationships = or_default match_.relationships [];
        evidence_paths = elim match_.path [ none ↦ [] | some p ↦ p ∷ [] ];
        source_systems = distinct_from [] (map (λ n. n.source_system) nodes);
        first_detected = now;
        last_detected = now;
        remediation_guidance = rule.remediation;
        metadata = or_default match_.metadata end;
      }

  -- The findings of a rule, in the order in which they are stored.
  abbrev pub rule_findings : ℕ → RiskRule R → List RiskFinding
  rule_findings depth rule = map (make_finding rule) (rule.detect graph depth)

  abbrev pub scan_findings : ℕ → List (RiskRule R) → List RiskFinding
  scan_findings depth [] = []
  scan_findings depth (rule ∷ rules) = rule_findings depth rule ++ scan_findings depth rules

-- `this.findings.upsert(finding)` for one after the other.
abbrev pub upsert_all : List RiskFinding → Repository → Repository
upsert_all [] r = r
upsert_all (f ∷ fs) r = upsert_all fs (upsert f r)

abbrev pub selected_rules :
    {R : Type 0} → Option (List String) → List (RiskRule R) → List (RiskRule R)
selected_rules none rules = rules
selected_rules (some []) rules = rules
selected_rules (some (id ∷ ids)) rules = filter (λ rule. includes (id ∷ ids) rule.id) rules

-- The part of `scan` behind the loading of the graph, up to the count of the resolved findings.
unfoldable pub scan_graph :
    {R : Type 0}
    → Services R
    → List (RiskRule R)
    → GraphSnapshot R
    → Option ℕ
    → String
    → Repository
    → ℕ × Repository
scan_graph c selected graph max_depth now r =
    let depth = min 10 (max 1 (or_default max_depth 6)) in
    let found = scan_findings c graph now depth selected in
    reconcile (map (λ rule. rule.id) selected) (map (λ f. f.id) found) now (upsert_all found r)
