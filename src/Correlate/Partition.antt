-- ===== src/Correlate/Partition.antt =====
-- The groups that `correlate` (apps/backend/src/imports/correlation/identity-correlation.service.ts)
-- makes have every record, once.
use mathlib.Core.List.{Perm, perm_middle}
use mathlib.Core.List.Perm
use identity_access_graph.Prelude.{
  ℕ, zero, suc, ◌+◌, ◌≤◌, ◌<◌, String, List, [], ◌∷◌, ◌++◌, append-nil, append_assoc, Option, none,
  some, ◌≡◌, refl, sym, ap, subst, ◌∙◌, length, length-append, length-map, map-append, arith,
  string_eq, map,
}
use identity_access_graph.Correlate.Keys.{Case, CorrelationRecord}
use identity_access_graph.Correlate.Groups.{
  WorkingGroup, Working, nothing_grouped, Target, update_at, new_group, conflict_group,
  conflicting_group, joined_group, register, find_target, add_group, join_group, place_record,
  group_records,
}
use identity_access_graph.Correlate.Results.{CorrelationGroup, correlate, result_group}
use identity_access_graph.Correlate.Indexes.{
  IsIndexOf, IsInRange, IsIndexOf-suc, register-IsIndexOf, find_target-IsInRange,
}

-- The records of all groups, one group after the other.
abbrev pub all_records : List WorkingGroup → List CorrelationRecord
all_records [] = []
all_records (g ∷ gs) = g.records ++ all_records gs

all_records-concat :
    (gs : List WorkingGroup) (g : WorkingGroup)
    → all_records (gs ++ g ∷ []) ≡ all_records gs ++ g.records
all_records-concat [] g = append-nil g.records
all_records-concat (h ∷ gs) g =
    ap (λ rs. h.records ++ rs) (all_records-concat gs g)
    ∙ sym (append_assoc h.records (all_records gs) g.records)

update_at-length :
    (i : ℕ) (f : WorkingGroup → WorkingGroup) (gs : List WorkingGroup)
    → length (update_at i f gs) ≡ length gs
update_at-length i f [] = refl
update_at-length zero f (g ∷ gs) = refl
update_at-length (suc i) f (g ∷ gs) = ap suc (update_at-length i f gs)

-- A change that keeps the records of the group.
update_at-records :
    (i : ℕ) (f : WorkingGroup → WorkingGroup) (gs : List WorkingGroup)
    → ((g : WorkingGroup) → (f g).records ≡ g.records)
    → all_records (update_at i f gs) ≡ all_records gs
update_at-records i f [] h = refl
update_at-records zero f (g ∷ gs) h = ap (λ rs. rs ++ all_records gs) (h g)
update_at-records (suc i) f (g ∷ gs) h = ap (λ rs. g.records ++ rs) (update_at-records i f gs h)

-- A record that joins a group is added, and nothing else changes.
joined-records :
    (r : CorrelationRecord) (t : Target) (i : ℕ) (gs : List WorkingGroup)
    → i < length gs
    → Perm (all_records (update_at i (joined_group r t) gs)) (r ∷ all_records gs)
joined-records r t i [] h = absurd (omega (arith, h))
joined-records r t zero (g ∷ gs) h =
    subst (λ rs. Perm rs (r ∷ (g.records ++ all_records gs)))
      (sym (append_assoc g.records (r ∷ []) (all_records gs)))
      (perm_middle g.records (all_records gs))
joined-records r t (suc i) (g ∷ gs) h =
    Perm.trans (Perm.append_left g.records (joined-records r t i gs (omega (arith, h))))
      (perm_middle g.records (all_records gs))

added-records :
    (r : CorrelationRecord) (g : WorkingGroup) (gs : List WorkingGroup)
    → g.records ≡ r ∷ []
    → Perm (all_records (gs ++ g ∷ [])) (r ∷ all_records gs)
added-records r g gs e =
    subst (λ rs. Perm rs (r ∷ all_records gs))
      (sym (all_records-concat gs g ∙ ap (λ rs. all_records gs ++ rs) e))
      (Perm.trans (perm_middle (all_records gs) []) (
        subst (λ rs. Perm (r ∷ rs) (r ∷ all_records gs)) (sym (append-nil (all_records gs)))
          (Perm.refl (r ∷ all_records gs))))

module _ (k : Case) (options : List String) where
  abbrev IsIndexed : Working → Type 0
  IsIndexed w = IsIndexOf (length w.groups) w.indexes

  -- What one record does to the groups.
  abbrev Adds : CorrelationRecord → Working → Working → Type 0
  Adds r w v =
      Perm (all_records v.groups) (r ∷ all_records w.groups)
      × (IsIndexed v × (length v.groups ≤ length w.groups + 1))

  add_group-Adds :
      (r : CorrelationRecord) (g : WorkingGroup) (w : Working)
      → g.records ≡ r ∷ []
      → IsIndexed w
      → Adds r w (add_group k options r g w)
  add_group-Adds r g w e p =
      let grown : length (w.groups ++ g ∷ []) ≡ length w.groups + 1 =
        length-append w.groups (g ∷ []) in
      (
        added-records r g w.groups e,
        (
          subst (λ n. IsIndexOf n (register k options (length w.groups) r w.indexes)) (sym grown)
              (register-IsIndexOf k options (length w.groups + 1) (length w.groups) r w.indexes
                (omega arith) (IsIndexOf-suc (length w.groups) w.indexes p)),
          omega (arith, grown),
        ),
      )

  join_group-Adds :
      (r : CorrelationRecord) (t : Target) (cs : List String) (w : Working)
      → t.group < length w.groups
      → IsIndexed w
      → Adds r w (join_group k options r t cs w)
  join_group-Adds r t [] w h p =
      let same = update_at-length t.group (joined_group r t) w.groups in
      (
        joined-records r t t.group w.groups h,
        (
          subst (λ n. IsIndexOf n (register k options t.group r w.indexes)) (sym same)
              (register-IsIndexOf k options (length w.groups) t.group r w.indexes h p),
          omega (arith, same),
        ),
      )
  join_group-Adds r t (c ∷ cs) w h p =
      let marked = update_at t.group (conflicting_group (c ∷ cs)) w.groups in
      let same : length marked ≡ length w.groups =
        update_at-length t.group (conflicting_group (c ∷ cs)) w.groups in
      let kept : all_records marked ≡ all_records w.groups =
        update_at-records t.group (conflicting_group (c ∷ cs)) w.groups (λ g. refl) in
      let added =
        add_group-Adds r (conflict_group r (c ∷ cs)) (record w { groups = marked }) refl
          (subst (λ n. IsIndexOf n w.indexes) (sym same) p) in
      (
        subst (λ rs. Perm (all_records (marked ++ conflict_group r (c ∷ cs) ∷ [])) (r ∷ rs)) kept
            added.0,
        (added.1.0, omega (arith, added.1.1, same)),
      )

  place_record-Adds :
      (r : CorrelationRecord) (w : Working) (o : Option Target)
      → IsInRange (length w.groups) o
      → IsIndexed w
      → Adds r w (place_record k options r w o)
  place_record-Adds r w none h p = add_group-Adds r (new_group r) w refl p
  place_record-Adds r w (some t) h p = join_group-Adds r t _ w h p

  group_records-Perm :
      (rs : List CorrelationRecord) (w : Working)
      → IsIndexed w
      → Perm (all_records (group_records k options w rs).groups) (all_records w.groups ++ rs)
        × (length (group_records k options w rs).groups ≤ length w.groups + length rs)
  unfolding group_records
  group_records-Perm [] w p = (
    subst (λ rs. Perm (all_records w.groups) rs) (sym (append-nil (all_records w.groups)))
        (Perm.refl (all_records w.groups)),
    omega arith,
  )
  group_records-Perm (r ∷ rs) w p =
      let v = place_record k options r w (find_target k options r w.indexes) in
      let step : Adds r w v =
        place_record-Adds r w (find_target k options r w.indexes)
          (find_target-IsInRange k options (length w.groups) r w.indexes p) p in
      let later = group_records-Perm rs v step.1.0 in
      (
        Perm.trans later.0 (
            Perm.trans (Perm.append_right rs step.0)
              (Perm.symm (perm_middle (all_records w.groups) rs))),
        omega (arith, later.1, step.1.1),
      )

abbrev pub id_of : CorrelationRecord → String
id_of r = r.record_id

-- The records that the result names, one group after the other.
abbrev pub all_matched : List CorrelationGroup → List String
all_matched [] = []
all_matched (g ∷ gs) = g.matched_record_ids ++ all_matched gs

all_matched-records :
    (k : Case) (digest : String → String) (gs : List WorkingGroup)
    → all_matched (map (result_group k digest) gs) ≡ map id_of (all_records gs)
unfolding result_group
all_matched-records k digest [] = refl
all_matched-records k digest (g ∷ gs) =
    ap (λ is. map id_of g.records ++ is) (all_matched-records k digest gs)
    ∙ sym (map-append id_of g.records (all_records gs))

-- The groups of the result partition the records: each is named in one group, as often as it was
-- given, and no other is named. There are no more identities than records, and the records that the
-- summary counts as merged are the difference.
pub correlate-partition :
    (k : Case) (digest : String → String) (options : List String) (rs : List CorrelationRecord)
    → Perm (all_matched (correlate k digest options rs).groups) (map id_of rs)
      × ((correlate k digest options rs).summary.identities
            + (correlate k digest options rs).summary.records_merged
          ≡ length rs)
unfolding correlate
correlate-partition k digest options rs =
    let working = (group_records k options nothing_grouped rs).groups in
    let grouped = group_records-Perm k options rs nothing_grouped tt in
    let named : length (map (result_group k digest) working) ≡ length working =
      length-map working (result_group k digest) in
    (
      subst (λ is. Perm is (map id_of rs)) (sym (all_matched-records k digest working))
          (Perm.map id_of grouped.0),
      omega (arith, grouped.1, named),
    )
