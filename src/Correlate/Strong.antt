-- ===== src/Correlate/Strong.antt =====
-- No group that `correlate` (apps/backend/src/imports/correlation/identity-correlation.service.ts)
-- makes joins records with different strong identifiers.
use identity_access_graph.Prelude.{
  ℕ, zero, suc, ◌≤◌, String, Bool, true, false, List, [], ◌∷◌, ◌++◌, Option, none, some, ◌≡◌, ◌≢◌,
  refl, sym, ap, subst, ◌∙◌, Bool-cases, inl, inr, if◌then◌else◌, length, All, All-append, arith,
  ◌==◌, ==_ne, string_eq, map, not, get_elem?, push_missing, any-push_missing, includes-one,
  includes, filter, ltb, get, ◌||◌,
}
use identity_access_graph.Correlate.Keys.{Case, CorrelationRecord, normalize_key}
use identity_access_graph.Correlate.Conflicts.{
  detect_strong_conflicts, conflicts_in, values_of, strong_fields,
}
use identity_access_graph.Correlate.Groups.{
  WorkingGroup, Working, nothing_grouped, Target, update_at, records_at, new_group, conflict_group,
  conflicting_group, joined_group, add_group, join_group, place_record, group_records, find_target,
}

module _ (k : Case) where
  abbrev IsSound : List WorkingGroup → Type 0
  IsSound = All (λ (g : WorkingGroup). detect_strong_conflicts k g.records ≡ [])

  one_value : (f : String) (r : CorrelationRecord) → length (values_of k f (r ∷ [])) ≤ 1
  unfolding values_of push_missing
  one_value f r = ground arith

  no_conflict-single : (r : CorrelationRecord) (fs : List String) → conflicts_in k (r ∷ []) fs ≡ []
  unfolding conflicts_in
  no_conflict-single r [] = refl
  no_conflict-single r (f ∷ fs) = ground (arith, one_value f r, no_conflict-single r fs)

  update_at-marked :
      (i : ℕ) (cs : List String) (gs : List WorkingGroup)
      → IsSound gs
      → IsSound (update_at i (conflicting_group cs) gs)
  update_at-marked i cs [] h = tt
  update_at-marked zero cs (g ∷ gs) h = h
  update_at-marked (suc i) cs (g ∷ gs) (p, h) = (p, update_at-marked i cs gs h)

  update_at-joined :
      (i : ℕ) (r : CorrelationRecord) (t : Target) (gs : List WorkingGroup)
      → IsSound gs
      → detect_strong_conflicts k (records_at i gs ++ r ∷ []) ≡ []
      → IsSound (update_at i (joined_group r t) gs)
  update_at-joined i r t [] h e = tt
  update_at-joined zero r t (g ∷ gs) (p, h) e = (e, h)
  update_at-joined (suc i) r t (g ∷ gs) (p, h) e = (p, update_at-joined i r t gs h e)

module _ (k : Case) (options : List String) where
  add_group-IsSound :
      (r : CorrelationRecord) (g : WorkingGroup) (w : Working)
      → g.records ≡ r ∷ []
      → IsSound k w.groups
      → IsSound k (add_group k options r g w).groups
  unfolding detect_strong_conflicts
  add_group-IsSound r g w e h =
      All-append (λ (g : WorkingGroup). detect_strong_conflicts k g.records ≡ []) w.groups (g ∷ [])
        h
        (
          subst (λ rs. conflicts_in k rs strong_fields ≡ []) (sym e)
              (no_conflict-single k r strong_fields),
          tt,
        )

  join_group-IsSound :
      (r : CorrelationRecord) (t : Target) (cs : List String) (w : Working)
      → IsSound k w.groups
      → detect_strong_conflicts k (records_at t.group w.groups ++ r ∷ []) ≡ cs
      → IsSound k (join_group k options r t cs w).groups
  join_group-IsSound r t [] w h e = update_at-joined k t.group r t w.groups h e
  join_group-IsSound r t (c ∷ cs) w h e =
      add_group-IsSound r (conflict_group r (c ∷ cs))
        (record w { groups = update_at t.group (conflicting_group (c ∷ cs)) w.groups }) refl
        (update_at-marked k t.group (c ∷ cs) w.groups h)

  place_record-IsSound :
      (r : CorrelationRecord) (w : Working) (o : Option Target)
      → IsSound k w.groups
      → IsSound k (place_record k options r w o).groups
  place_record-IsSound r w none h = add_group-IsSound r (new_group r) w refl h
  place_record-IsSound r w (some t) h = join_group-IsSound r t _ w h refl

  group_records-IsSound :
      (rs : List CorrelationRecord) (w : Working)
      → IsSound k w.groups
      → IsSound k (group_records k options w rs).groups
  unfolding group_records
  group_records-IsSound [] w h = h
  group_records-IsSound (r ∷ rs) w h =
      group_records-IsSound rs _ (place_record-IsSound r w (find_target k options r w.indexes) h)

module _ (k : Case) (f : String) where
  -- The form of the field in which records are compared.
  abbrev pub key_of : CorrelationRecord → String
  key_of r = normalize_key k (get r.fields f)

  includes-kept :
      (rs : List CorrelationRecord) (i : ℕ) (r : CorrelationRecord)
      → get_elem? rs i ≡ some r
      → key_of r ≢ ""
      → includes (filter (λ (t : String). not (t == "")) (map key_of rs)) (key_of r) ≡ true
  includes-kept [] i r e ne = cc e
  includes-kept (q ∷ rs) zero r e ne =
      let same : q ≡ r = cc e in
      let kept : (key_of q == "") ≡ false =
        ==_ne (key_of q) "" (λ z. ne (ap key_of (sym same) ∙ z)) in
      let found : (key_of q == key_of r) ≡ true =
        (string_eq.test_iff (key_of q) (key_of r)).1 (ap key_of same) in
      rw (kept, found) refl
  includes-kept (q ∷ rs) (suc i) r e ne = elim (Bool-cases (key_of q == "")) [
    | inl b ↦ rw b (includes-kept rs i r e ne)
    | inr b ↦ rw b (later (key_of q == key_of r) (includes-kept rs i r e ne))
  ]
    where
      later : (a : Bool) {b : Bool} → b ≡ true → (a || b) ≡ true
      later true h = refl
      later false h = h

  includes-values :
      (rs : List CorrelationRecord) (i : ℕ) (r : CorrelationRecord)
      → get_elem? rs i ≡ some r
      → key_of r ≢ ""
      → includes (values_of k f rs) (key_of r) ≡ true
  unfolding values_of
  includes-values rs i r e ne =
      any-push_missing (λ x. x == key_of r) [] _ ∙ includes-kept rs i r e ne

none_found :
    (b : Bool) (c : String) (cs : List String)
    → (if b then c ∷ cs else cs) ≡ []
    → (b ≡ false) × (cs ≡ [])
none_found true c cs e = cc e
none_found false c cs e = (refl, e)

few : (n : ℕ) → ltb 1 n ≡ false → n ≤ 1
few n e = ground (arith, e)

conflicts_in-few :
    (k : Case) (rs : List CorrelationRecord) (fs : List String) (f : String)
    → conflicts_in k rs fs ≡ []
    → includes fs f ≡ true
    → length (values_of k f rs) ≤ 1
unfolding conflicts_in
conflicts_in-few k rs [] f e h = cc h
conflicts_in-few k rs (g ∷ fs) f e h =
    let none = none_found (ltb 1 (length (values_of k g rs))) _ _ e in
    elim (Bool-cases (g == f)) [
      | inl b ↦
          subst (λ x. length (values_of k x rs) ≤ 1) ((string_eq.test_iff g f).0 b)
            (few (length (values_of k g rs)) none.0)
      | inr b ↦ conflicts_in-few k rs fs f none.1 (subst (λ x. (x || includes fs f) ≡ true) b h)
    ]

group_at-IsSound :
    (k : Case) (gs : List WorkingGroup) (m : ℕ) (g : WorkingGroup)
    → IsSound k gs
    → get_elem? gs m ≡ some g
    → detect_strong_conflicts k g.records ≡ []
group_at-IsSound k [] m g h e = cc e
group_at-IsSound k (h ∷ gs) zero g (p, s) e =
    let same : h ≡ g = cc e in
    subst (λ (x : WorkingGroup). detect_strong_conflicts k x.records ≡ []) same p
group_at-IsSound k (h ∷ gs) (suc m) g (p, s) e = group_at-IsSound k gs m g s e

-- Two records of one group, whatever they were matched by, have the same objectGUID and the same SID
-- up to blanks and case, if both have one.
pub group_records-agree :
    (k : Case) (options : List String) (rs : List CorrelationRecord) (m i j : ℕ) (g : WorkingGroup)
    (r q : CorrelationRecord) (f : String)
    → get_elem? (group_records k options nothing_grouped rs).groups m ≡ some g
    → get_elem? g.records i ≡ some r
    → get_elem? g.records j ≡ some q
    → includes strong_fields f ≡ true
    → key_of k f r ≢ ""
    → key_of k f q ≢ ""
    → key_of k f r ≡ key_of k f q
unfolding detect_strong_conflicts
group_records-agree k options rs m i j g r q f at_m at_i at_j strong has_r has_q =
    let sound =
      group_at-IsSound k _ m g (group_records-IsSound k options rs nothing_grouped tt) at_m in
    includes-one (values_of k f g.records) (key_of k f r) (key_of k f q)
      (conflicts_in-few k g.records strong_fields f sound strong)
      (includes-values k f g.records i r at_i has_r) (includes-values k f g.records j q at_j has_q)
