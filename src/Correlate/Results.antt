-- ===== src/Correlate/Results.antt =====
-- What `correlate` of apps/backend/src/imports/correlation/identity-correlation.service.ts returns.
--
-- The digest of `createHash`, cut to 24 digits, is an argument.
use identity_access_graph.Prelude.{
  ℕ, ◌+◌, ◌-◌, String, Bool, true, false, List, [], ◌∷◌, ◌++◌, string_eq, if◌then◌else◌, ◌&&◌, ◌||◌,
  not, Value, str, Object, get, truthy, to_text, ◌+s◌, map, includes, length, ltb, any, nat_eq,
  or_else,
}
use identity_access_graph.Correlate.Keys.{
  Case, CorrelationRecord, MatchMethod, by_employee_id, by_username, Confidence, exact, high,
  medium, low, conflict,
}
use identity_access_graph.Correlate.Conflicts.{
  detect_strong_conflicts, conflicting_fields, merge_fields, distinct_texts,
}
use identity_access_graph.Prelude.{set, end}
use identity_access_graph.Correlate.Groups.{WorkingGroup, nothing_grouped, group_records}

pub record CorrelationGroup : Type 0 where
  pub canonical_identity_id : String
  pub matched_record_ids : List String
  pub source_systems : List String
  pub match_method : MatchMethod
  pub confidence : Confidence
  pub conflicts : List String
  pub merged_fields : Object
  pub conflicting : List String
  pub manual_review_required : Bool

pub record Summary : Type 0 where
  pub exact_count : ℕ
  pub high_count : ℕ
  pub medium_count : ℕ
  pub low_count : ℕ
  pub conflict_count : ℕ
  pub records : ℕ
  pub identities : ℕ
  pub records_merged : ℕ

pub record CorrelationResult : Type 0 where
  pub groups : List CorrelationGroup
  pub record_to_canonical : Object
  pub summary : Summary

abbrev same_method : MatchMethod → MatchMethod → Bool
same_method by_employee_id by_employee_id = true
same_method by_username by_username = true
same_method _ _ = false

abbrev none_of_texts : List String → Bool
none_of_texts [] = true
none_of_texts (t ∷ ts) = false

abbrev or_record_id : List CorrelationRecord → String
or_record_id [] = ""
or_record_id (r ∷ rs) = r.record_id

-- `merged.objectGUID ?? merged.sid ?? ... ?? records[0].recordId`.
abbrev seed_of : Object → List CorrelationRecord → Value
seed_of m rs = or_else (get m "objectGUID") (
    or_else (get m "sid") (
      or_else (get m "employeeId")
        (or_else (get m "email") (or_else (get m "username") (str (or_record_id rs))))))

abbrev name_fields : List String
name_fields = "username" ∷ "samAccountName" ∷ "userPrincipalName" ∷ "email" ∷ "displayName" ∷ []

module _ (k : Case) (digest : String → String) where
  abbrev pub canonical_id : WorkingGroup → String
  canonical_id g =
      "identity:" +s digest (k.lower (to_text (seed_of (merge_fields k g.records) g.records)))

  abbrev all_conflicts : WorkingGroup → List String
  all_conflicts g = distinct_texts (g.conflicts ++ detect_strong_conflicts k g.records)

  abbrev misses_name : Object → Bool
  misses_name m =
      not (truthy (get m "displayName"))
      && not (truthy (get m "firstName"))
      && not (truthy (get m "username"))
      && not (truthy (get m "email"))

  abbrev needs_review : WorkingGroup → Bool
  needs_review g =
      not (none_of_texts (all_conflicts g))
      || misses_name (merge_fields k g.records)
      || (same_method g.method by_employee_id
          && any (includes name_fields) (conflicting_fields k g.records))
      || (same_method g.method by_username && ltb 1 (length g.records))

  unfoldable pub result_group : WorkingGroup → CorrelationGroup
  result_group g = record {
    canonical_identity_id = canonical_id g;
    matched_record_ids = map (λ (r : CorrelationRecord). r.record_id) g.records;
    source_systems = distinct_texts (map (λ (r : CorrelationRecord). r.source_system) g.records);
    match_method = g.method;
    confidence = if none_of_texts (all_conflicts g) then g.confidence else conflict;
    conflicts = all_conflicts g;
    merged_fields = merge_fields k g.records;
    conflicting = conflicting_fields k g.records;
    manual_review_required = needs_review g;
  }

  -- `group.records.forEach((record) => { recordToCanonical[record.recordId] = ... })`.
  abbrev name_records : String → List CorrelationRecord → Object → Object
  name_records i [] o = o
  name_records i (r ∷ rs) o = name_records i rs (set o r.record_id (str i))

  abbrev name_all : List WorkingGroup → Object → Object
  name_all [] o = o
  name_all (g ∷ gs) o = name_all gs (name_records (canonical_id g) g.records o)

abbrev is_confidence : Confidence → Confidence → Bool
is_confidence exact exact = true
is_confidence high high = true
is_confidence medium medium = true
is_confidence low low = true
is_confidence conflict conflict = true
is_confidence _ _ = false

unfoldable pub count_confidence : Confidence → List CorrelationGroup → ℕ
count_confidence c [] = 0
count_confidence c (g ∷ gs) =
    (if is_confidence g.confidence c then 1 else 0) + count_confidence c gs

-- `options` are the fields of the composite key.
unfoldable pub correlate :
    Case → (String → String) → List String → List CorrelationRecord → CorrelationResult
correlate k digest options rs =
    let working = (group_records k options nothing_grouped rs).groups in
    let groups = map (result_group k digest) working in
    record {
      groups = groups;
      record_to_canonical = name_all k digest working end;
      summary = record {
        exact_count = count_confidence exact groups;
        high_count = count_confidence high groups;
        medium_count = count_confidence medium groups;
        low_count = count_confidence low groups;
        conflict_count = count_confidence conflict groups;
        records = length rs;
        identities = length groups;
        records_merged = length rs - length groups;
      };
    }
