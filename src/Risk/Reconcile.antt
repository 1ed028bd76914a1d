-- ===== src/Risk/Reconcile.antt =====
-- What `reconcile` of apps/backend/src/risk/finding.repository.ts does to each finding.
use identity_access_graph.Prelude.{
  String, ◌≡◌, ◌≢◌, refl, sym, subst, ap, Bool, true, false, List, [], ◌∷◌, map, some, inl, inr,
  ◌==◌, string_eq, Bool-cases, Option-cases, if◌then◌else◌, includes, arith, ◌∙◌,
}
use identity_access_graph.Risk.Types.{finding_status_eq, RiskFinding}
use identity_access_graph.Risk.Repository.{
  Repository, find_finding, put_finding, merged, passed_over, resolved_finding, resolve_finding,
  reconcile_one, reconcile_keys, reconcile,
}
use identity_access_graph.Risk.Lookup.{
  find-put_self, find-put_ne, find-upsert_self, find-upsert_ne, find-id,
}

module _ (rule_ids detected_ids : List String) (at : String) where
  -- What a finding is after the scan of these rules that has detected these.
  abbrev pub reconciled : RiskFinding → RiskFinding
  reconciled f = if passed_over rule_ids detected_ids f then f else resolved_finding at f

  passed_over-resolved :
      (f : RiskFinding) → passed_over rule_ids detected_ids (resolved_finding at f) ≡ true
  passed_over-resolved f = ground arith

  reconciled-kept :
      (f : RiskFinding) → passed_over rule_ids detected_ids f ≡ true → reconciled f ≡ f
  reconciled-kept f e = rw e refl

  reconciled-resolved :
      (f : RiskFinding)
      → passed_over rule_ids detected_ids f ≡ false
      → reconciled f ≡ resolved_finding at f
  reconciled-resolved f e = rw e refl

  reconciled-twice : (f : RiskFinding) → reconciled (reconciled f) ≡ reconciled f
  reconciled-twice f = elim (Bool-cases (passed_over rule_ids detected_ids f)) [
    | inl e ↦ ap reconciled (reconciled-kept f e)
    | inr e ↦
        ap reconciled (reconciled-resolved f e)
        ∙ reconciled-kept (resolved_finding at f) (passed_over-resolved f)
        ∙ sym (reconciled-resolved f e)
  ]

  resolve_finding_self :
      (f : RiskFinding) (r : Repository)
      → find_finding f.id (resolve_finding at f r).findings ≡ some (resolved_finding at f)
  resolve_finding_self f r =
      let g = resolved_finding at f in
      find-upsert_self g (record r { findings = put_finding g r.findings })
      ∙ ap (λ o. some (merged o g)) (find-put_self g r.findings)

  resolve_finding_ne :
      (f : RiskFinding) (id : String) (r : Repository)
      → f.id ≢ id
      → find_finding id (resolve_finding at f r).findings ≡ find_finding id r.findings
  resolve_finding_ne f id r h =
      let g = resolved_finding at f in
      find-upsert_ne g id (record r { findings = put_finding g r.findings }) h
      ∙ find-put_ne g id r.findings h

  reconcile_one_self :
      (id : String) (f : RiskFinding) (r : Repository)
      → find_finding id r.findings ≡ some f
      → find_finding id (reconcile_one rule_ids detected_ids at (some f) r).1.findings
        ≡ some (reconciled f)
  reconcile_one_self id f r e = elim (Bool-cases (passed_over rule_ids detected_ids f)) [
    | inl h ↦ rw h e
    | inr h ↦ rw h (
        subst (λ x. find_finding x (resolve_finding at f r).findings ≡ some (resolved_finding at f))
          (find-id id r.findings f e) (resolve_finding_self f r))
  ]

  reconcile_one_ne :
      (f : RiskFinding) (id : String) (r : Repository)
      → f.id ≢ id
      → find_finding id (reconcile_one rule_ids detected_ids at (some f) r).1.findings
        ≡ find_finding id r.findings
  reconcile_one_ne f id r n = elim (Bool-cases (passed_over rule_ids detected_ids f)) [
    | inl h ↦ rw h refl
    | inr h ↦ rw h (resolve_finding_ne f id r n)
  ]

  -- One round of the loop, at the key `k`.
  abbrev round : String → Repository → Repository
  round k r = (reconcile_one rule_ids detected_ids at (find_finding k r.findings) r).1

  round_self :
      (id : String) (f : RiskFinding) (r : Repository)
      → find_finding id r.findings ≡ some f
      → find_finding id (round id r).findings ≡ some (reconciled f)
  round_self id f r e =
      subst
        (λ o.
          find_finding id (reconcile_one rule_ids detected_ids at o r).1.findings
          ≡ some (reconciled f))
        (sym e) (reconcile_one_self id f r e)

  round_ne :
      (k id : String) (r : Repository)
      → k ≢ id
      → find_finding id (round k r).findings ≡ find_finding id r.findings
  round_ne k id r n = elim (Option-cases (find_finding k r.findings)) [
    | inl e ↦ rw (e, round) refl
    | inr (g, e) ↦
        rw (e, round) (reconcile_one_ne g id r (λ i. n (sym (find-id k r.findings g e) ∙ i)))
  ]

  absorbed :
      (b : Bool) (f : RiskFinding)
      → (if b then reconciled (reconciled f) else reconciled f) ≡ reconciled f
  absorbed true f = reconciled-twice f
  absorbed false f = refl

  reconcile_keys-find :
      (ids : List String) (id : String) (f : RiskFinding) (r : Repository)
      → find_finding id r.findings ≡ some f
      → find_finding id (reconcile_keys rule_ids detected_ids at ids r).1.findings
        ≡ some (if includes ids id then reconciled f else f)
  unfolding reconcile_keys
  reconcile_keys-find [] id f r e = e
  reconcile_keys-find (k ∷ ks) id f r e = elim (Bool-cases (k == id)) [
    | inl h ↦
        let i = (string_eq.test_iff k id).0 h in
        rw h (
          reconcile_keys-find ks id (reconciled f) (round k r) (
            subst (λ x. find_finding id (round x r).findings ≡ some (reconciled f)) (sym i)
              (round_self id f r e))
          ∙ ap some (absorbed (includes ks id) f))
    | inr h ↦ rw h (
        reconcile_keys-find ks id f (round k r)
          (round_ne k id r (λ i. cc (h, (string_eq.test_iff k id).1 i)) ∙ e))
  ]

  kept_key :
      (id : String) (fs : List RiskFinding) (f : RiskFinding)
      → find_finding id fs ≡ some f
      → includes (map (λ g. g.id) fs) id ≡ true
  kept_key id [] f e = cc e
  kept_key id (g ∷ gs) f e = elim (Bool-cases (g.id == id)) [
    | inl h ↦ rw h refl
    | inr h ↦ rw h (kept_key id gs f (ground (arith, h, e)))
  ]

  -- The loop over the map that it writes to does to each finding, once, what it is to do.
  pub reconcile-find :
      (id : String) (f : RiskFinding) (r : Repository)
      → find_finding id r.findings ≡ some f
      → find_finding id (reconcile rule_ids detected_ids at r).1.findings ≡ some (reconciled f)
  unfolding reconcile
  reconcile-find id f r e =
      reconcile_keys-find (map (λ g. g.id) r.findings) id f r e
      ∙ ap some (present (includes (map (λ g. g.id) r.findings) id) (kept_key id r.findings f e) f)
    where
      present :
          (b : Bool) → b ≡ true → (f : RiskFinding) → (if b then reconciled f else f) ≡ reconciled f
      present b h f = rw h refl
