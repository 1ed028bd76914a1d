-- ===== src/Correlate/Groups.antt =====
-- `correlate` of apps/backend/src/imports/correlation/identity-correlation.service.ts.
--
-- A group is an object that the index refers to: here by its place in `groups`, which only grows.
use identity_access_graph.Prelude.{
  ℕ, zero, suc, String, List, [], ◌∷◌, ◌++◌, Option, none, some, ◌==◌, string_eq, if◌then◌else◌,
  ◌&&◌, not, get, ◌+s◌, length, any, get_elem?, nat_eq,
}
use identity_access_graph.Correlate.Keys.{
  Case, CorrelationRecord, MatchMethod, by_none, by_composite_key, Confidence, low, conflict,
  Strategy, strategies, composite_key,
}
use identity_access_graph.Correlate.Conflicts.{detect_strong_conflicts}

pub record WorkingGroup : Type 0 where
  pub records : List CorrelationRecord
  pub method : MatchMethod
  pub confidence : Confidence
  pub conflicts : List String

pub record Working : Type 0 where
  pub groups : List WorkingGroup
  pub indexes : List (String × ℕ)

-- `indexes.get(key)`.
abbrev pub index_at : List (String × ℕ) → String → Option ℕ
index_at [] key = none
index_at ((j, i) ∷ is) key = if j == key then some i else index_at is key

-- `if (value && !indexes.has(key)) indexes.set(key, group)`.
abbrev pub add_index : String → String → ℕ → List (String × ℕ) → List (String × ℕ)
add_index name value i is =
    let key = name +s ":" +s value in
    if not (value == "") && not (any (λ (e : String × ℕ). e.0 == key) is)
    then is ++ (key, i) ∷ []
    else is

-- What was found for a record: the group, and by which method.
pub record Target : Type 0 where
  pub group : ℕ
  pub method : MatchMethod
  pub confidence : Confidence

abbrev pub target_by : MatchMethod → Confidence → Option ℕ → Option Target
target_by method confidence none = none
target_by method confidence (some i) =
    some (record { group = i; method = method; confidence = confidence })

abbrev pub first_target : Option Target → Option Target → Option Target
first_target none later = later
first_target (some t) later = some t

-- `groups[i] = f(groups[i])`.
abbrev pub update_at : ℕ → (WorkingGroup → WorkingGroup) → List WorkingGroup → List WorkingGroup
update_at i f [] = []
update_at zero f (g ∷ gs) = f g ∷ gs
update_at (suc i) f (g ∷ gs) = g ∷ update_at i f gs

abbrev pub records_at : ℕ → List WorkingGroup → List CorrelationRecord
records_at i gs = elim (get_elem? gs i) [ none ↦ [] | some g ↦ g.records ]

abbrev pub new_group : CorrelationRecord → WorkingGroup
new_group r = record { records = r ∷ []; method = by_none; confidence = low; conflicts = [] }

abbrev pub conflict_group : CorrelationRecord → List String → WorkingGroup
conflict_group r cs = record {
  records = r ∷ [];
  method = by_none;
  confidence = conflict;
  conflicts = cs;
}

-- What becomes of the group that a record conflicts with, and of the one that it joins.
abbrev pub conflicting_group : List String → WorkingGroup → WorkingGroup
conflicting_group cs g = record g { confidence = conflict; conflicts = g.conflicts ++ cs }

abbrev pub method_or : MatchMethod → MatchMethod → MatchMethod
method_or by_none m = m
method_or m _ = m

abbrev pub joined_group : CorrelationRecord → Target → WorkingGroup → WorkingGroup
joined_group r t g = record g {
  records = g.records ++ r ∷ [];
  method = method_or g.method t.method;
  confidence = t.confidence;
}

module _ (k : Case) (options : List String) where
  abbrev pub register_by :
      List Strategy → ℕ → CorrelationRecord → List (String × ℕ) → List (String × ℕ)
  register_by [] i r is = is
  register_by (s ∷ ss) i r is =
      register_by ss i r (add_index s.field_name (s.normalize (get r.fields s.field_name)) i is)

  unfoldable pub register : ℕ → CorrelationRecord → List (String × ℕ) → List (String × ℕ)
  register i r is =
      add_index "composite" (composite_key k r options) i (register_by (strategies k) i r is)

  abbrev pub target_at : List (String × ℕ) → Strategy → String → Option Target
  target_at is s value =
      if value == ""
      then none
      else target_by s.method s.confidence (index_at is (s.field_name +s ":" +s value))

  abbrev pub find_by : List Strategy → CorrelationRecord → List (String × ℕ) → Option Target
  find_by [] r is = none
  find_by (s ∷ ss) r is =
      first_target (target_at is s (s.normalize (get r.fields s.field_name))) (find_by ss r is)

  abbrev pub find_composite : String → List (String × ℕ) → Option Target
  find_composite key is =
      if key == "" then none else target_by by_composite_key low (index_at is ("composite:" +s key))

  unfoldable pub find_target : CorrelationRecord → List (String × ℕ) → Option Target
  find_target r is =
      first_target (find_by (strategies k) r is) (find_composite (composite_key k r options) is)

  -- `groups.push(group); register(group, record)`.
  abbrev pub add_group : CorrelationRecord → WorkingGroup → Working → Working
  add_group r g w = record {
    groups = w.groups ++ g ∷ [];
    indexes = register (length w.groups) r w.indexes;
  }

  abbrev pub join_group : CorrelationRecord → Target → List String → Working → Working
  join_group r t [] w = record {
    groups = update_at t.group (joined_group r t) w.groups;
    indexes = register t.group r w.indexes;
  }
  join_group r t (c ∷ cs) w =
      add_group r (conflict_group r (c ∷ cs))
        (record w { groups = update_at t.group (conflicting_group (c ∷ cs)) w.groups })

  abbrev pub place_record : CorrelationRecord → Working → Option Target → Working
  place_record r w none = add_group r (new_group r) w
  place_record r w (some t) =
      join_group r t (detect_strong_conflicts k (records_at t.group w.groups ++ r ∷ [])) w

  -- The loop over the records.
  unfoldable pub group_records : Working → List CorrelationRecord → Working
  group_records w [] = w
  group_records w (r ∷ rs) = group_records (place_record r w (find_target r w.indexes)) rs

abbrev pub nothing_grouped : Working
nothing_grouped = record { groups = []; indexes = [] }
