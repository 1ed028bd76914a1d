-- ===== src/Correlate/Tests.antt =====
-- Three records for apps/backend/src/imports/correlation, runs on them, and the theorems at them.
use mathlib.Core.List.{Perm}
use identity_access_graph.Prelude.{
  ◌+◌, String, List, [], ◌∷◌, some, ◌≡◌, ◌≢◌, refl, map, length, get_elem?, Object, field, end, str,
}
use identity_access_graph.Correlate.Keys.{Case, CorrelationRecord, by_object_guid, conflict}
use identity_access_graph.Correlate.Groups.{WorkingGroup, group_records, nothing_grouped}
use identity_access_graph.Correlate.Results.{CorrelationGroup, CorrelationResult, correlate}
use identity_access_graph.Correlate.Partition.{id_of, all_matched, correlate-partition}
use identity_access_graph.Correlate.Strong.{key_of, group_records-agree}
use identity_access_graph.Correlate.Keys.{
  trim_text, normalize_key, normalize_email, normalize_username, normalize_dn, strategies,
  composite_key,
}
use identity_access_graph.Correlate.Conflicts.{
  values_of, conflicts_in, detect_strong_conflicts, conflicting_fields, merge_fields,
}
use identity_access_graph.Correlate.Groups.{register, find_target}
use identity_access_graph.Correlate.Results.{result_group, count_confidence}
use identity_access_graph.Prelude.{push_missing, to_text}
use identity_access_graph.Csv.Line.{is_space}

abbrev plain : Case
plain = record { lower = λ s. s; upper = λ s. s }

abbrev person : String → String → Object → CorrelationRecord
person id source fields = record { record_id = id; source_system = source; fields = fields }

-- `r2` has the mail address of `r1`; `r3` has its object identifier, and another SID.
abbrev r1 : CorrelationRecord
r1 =
    person "r1" "LDAP"
      (field "objectGUID" (str " g ") (field "sid" (str "s1") (field "email" (str "a@b") end)))

abbrev r2 : CorrelationRecord
r2 = person "r2" "MANUAL" (field "email" (str "a@b") (field "objectGUID" (str "g") end))

abbrev r3 : CorrelationRecord
r3 = person "r3" "LINUX" (field "objectGUID" (str "g") (field "sid" (str "s2") end))

abbrev records : List CorrelationRecord
records = r1 ∷ r2 ∷ r3 ∷ []

abbrev result : CorrelationResult
result = correlate plain (λ s. s) [] records

groups_found :
    map (λ (g : CorrelationGroup). g.matched_record_ids) result.groups
    ≡ ("r1" ∷ "r2" ∷ []) ∷ ("r3" ∷ []) ∷ []
unfolding trim_text normalize_key normalize_email normalize_username normalize_dn strategies
    composite_key values_of conflicts_in detect_strong_conflicts conflicting_fields merge_fields
    register find_target group_records result_group count_confidence correlate push_missing is_space
    to_text
groups_found = refl

-- The group that is split off for its SID has the identifier of the one that it conflicts with.
same_canonical_id :
    map (λ (g : CorrelationGroup). g.canonical_identity_id) result.groups
    ≡ "identity:g" ∷ "identity:g" ∷ []
unfolding trim_text normalize_key normalize_email normalize_username normalize_dn strategies
    composite_key values_of conflicts_in detect_strong_conflicts conflicting_fields merge_fields
    register find_target group_records result_group count_confidence correlate push_missing is_space
    to_text
same_canonical_id = refl

correlate-partition_example :
    Perm (all_matched result.groups) (map id_of records)
    × (result.summary.identities + result.summary.records_merged ≡ length records)
correlate-partition_example = correlate-partition plain (λ s. s) [] records

abbrev first_group : WorkingGroup
first_group = record {
  records = r1 ∷ r2 ∷ [];
  method = by_object_guid;
  confidence = conflict;
  conflicts = "Conflicting sid: s1, s2" ∷ [];
}

first_found : get_elem? (group_records plain [] nothing_grouped records).groups 0 ≡ some first_group
unfolding trim_text normalize_key normalize_email normalize_username normalize_dn strategies
    composite_key values_of conflicts_in detect_strong_conflicts conflicting_fields merge_fields
    register find_target group_records result_group count_confidence correlate push_missing is_space
    to_text
first_found = refl

has_key : (key_of plain "objectGUID" r1 ≢ "") × (key_of plain "objectGUID" r2 ≢ "")
unfolding normalize_key trim_text to_text is_space
has_key = (λ e. cc e, λ e. cc e)

group_records-agree_example : key_of plain "objectGUID" r1 ≡ key_of plain "objectGUID" r2
group_records-agree_example =
    group_records-agree plain [] records 0 0 1 first_group r1 r2 "objectGUID" first_found refl refl
      refl has_key.0 has_key.1
