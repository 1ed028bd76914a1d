-- ===== src/Correlate/Conflicts.antt =====
-- apps/backend/src/imports/correlation/conflict-detector.ts and field-merger.ts.
use identity_access_graph.Prelude.{
  push_missing, ℕ, String, Bool, true, false, List, [], ◌∷◌, ◌++◌, ◌==◌, string_eq, if◌then◌else◌,
  ◌&&◌, not, Value, undefined, str, Object, end, field, get, set, ◌+s◌, map, filter, includes,
  index_of, length, ltb, leb,
}
use identity_access_graph.Correlate.Keys.{Case, CorrelationRecord, normalize_key}

abbrev pub strong_fields : List String
strong_fields = "objectGUID" ∷ "sid" ∷ []

-- `[...new Set(texts)]`: each text once, where it stands first.
abbrev pub distinct_texts : List String → List String
distinct_texts = push_missing []

-- `ts.join(', ')`.
abbrev pub join_comma : List String → String
join_comma [] = ""
join_comma (t ∷ []) = t
join_comma (t ∷ u ∷ ts) = t +s ", " +s join_comma (u ∷ ts)

module _ (k : Case) where
  -- The different values of a field, without the empty one.
  unfoldable pub values_of : String → List CorrelationRecord → List String
  values_of f rs = distinct_texts (
      filter (λ (t : String). not (t == ""))
        (map (λ (r : CorrelationRecord). normalize_key k (get r.fields f)) rs))

  -- The loop over the strong fields.
  unfoldable pub conflicts_in : List CorrelationRecord → List String → List String
  conflicts_in rs [] = []
  conflicts_in rs (f ∷ fs) =
      let rest = conflicts_in rs fs in
      let values = values_of f rs in
      if ltb 1 (length values)
      then ("Conflicting " +s f +s ": " +s join_comma values) ∷ rest
      else rest

  unfoldable pub detect_strong_conflicts : List CorrelationRecord → List String
  detect_strong_conflicts rs = conflicts_in rs strong_fields

  abbrev keys_of_object : Object → List String
  keys_of_object end = []
  keys_of_object (field key v o) = key ∷ keys_of_object o

  abbrev all_keys : List CorrelationRecord → List String
  all_keys [] = []
  all_keys (r ∷ rs) = keys_of_object r.fields ++ all_keys rs

  unfoldable pub conflicting_fields : List CorrelationRecord → List String
  conflicting_fields rs =
      filter (λ f. ltb 1 (length (values_of f rs))) (distinct_texts (all_keys rs))

  abbrev source_priority : List String
  source_priority =
      "MANUAL" ∷ "ACTIVE_DIRECTORY" ∷ "ENTRA_ID" ∷ "FREE_IPA" ∷ "LINUX" ∷ "LDAP" ∷ "CUSTOM" ∷ []

  -- `SOURCE_PRIORITY.indexOf(...)`, with 999 for -1.
  abbrev pub priority_of : CorrelationRecord → ℕ
  priority_of r =
      let s = k.upper r.source_system in
      if includes source_priority s then index_of source_priority s else 999

  -- The stable sort: records of the same priority keep their order.
  abbrev pub insert_record : CorrelationRecord → List CorrelationRecord → List CorrelationRecord
  insert_record r [] = r ∷ []
  insert_record r (q ∷ qs) =
      let rest = insert_record r qs in
      if leb (priority_of r) (priority_of q) then r ∷ q ∷ qs else q ∷ rest

  abbrev pub sort_records : List CorrelationRecord → List CorrelationRecord
  sort_records [] = []
  sort_records (r ∷ rs) = insert_record r (sort_records rs)

-- `v === undefined || v === ''`.
abbrev pub is_unset : Value → Bool
is_unset undefined = true
is_unset (str s) = s == ""
is_unset _ = false

abbrev pub merge_object : Object → Object → Object
merge_object merged end = merged
merge_object merged (field key v o) =
    merge_object
      (if is_unset (get merged key) && not (is_unset v) then set merged key v else merged) o

abbrev pub merge_all : Object → List CorrelationRecord → Object
merge_all merged [] = merged
merge_all merged (r ∷ rs) = merge_all (merge_object merged r.fields) rs

unfoldable pub merge_fields : Case → List CorrelationRecord → Object
merge_fields k rs = merge_all end (sort_records k rs)
