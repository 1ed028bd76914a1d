-- ===== src/Risk/Lookup.antt =====
-- Reading a finding of apps/backend/src/risk/finding.repository.ts back after one was written.
use identity_access_graph.Prelude.{
  String, ◌≡◌, ◌≢◌, refl, sym, subst, List, [], ◌∷◌, some, inl, inr, ◌==◌, ==_refl, ==_ne,
  string_eq, Bool-cases, arith, ◌∙◌,
}
use identity_access_graph.Risk.Types.{RiskFinding}
use identity_access_graph.Risk.Repository.{find_finding, put_finding, merged, Repository, upsert}

pub find-put_self :
    (f : RiskFinding) (fs : List RiskFinding) → find_finding f.id (put_finding f fs) ≡ some f
find-put_self f [] = rw (==_refl f.id) refl
find-put_self f (g ∷ gs) = elim (Bool-cases (g.id == f.id)) [
  | inl e ↦ rw (e, ==_refl f.id) refl
  | inr e ↦ rw (e, e) (find-put_self f gs)
]

pub find-put_ne :
    (f : RiskFinding) (id : String) (fs : List RiskFinding)
    → f.id ≢ id
    → find_finding id (put_finding f fs) ≡ find_finding id fs
find-put_ne f id [] h = rw (==_ne f.id id h) refl
find-put_ne f id (g ∷ gs) h = elim (Bool-cases (g.id == f.id)) [
  | inl e ↦
      rw (e, ==_ne f.id id h, ==_ne g.id id (λ k. h (sym ((string_eq.test_iff g.id f.id).0 e) ∙ k)))
        refl
  | inr e ↦ ground (arith, e, find-put_ne f id gs h)
]

pub find-upsert_self :
    (f : RiskFinding) (r : Repository)
    → find_finding f.id (upsert f r).findings ≡ some (merged (find_finding f.id r.findings) f)
unfolding upsert
find-upsert_self f r = find-put_self (merged (find_finding f.id r.findings) f) r.findings

pub find-upsert_ne :
    (f : RiskFinding) (id : String) (r : Repository)
    → f.id ≢ id
    → find_finding id (upsert f r).findings ≡ find_finding id r.findings
unfolding upsert
find-upsert_ne f id r h = find-put_ne (merged (find_finding f.id r.findings) f) id r.findings h

pub find-id :
    (id : String) (fs : List RiskFinding) (f : RiskFinding)
    → find_finding id fs ≡ some f
    → f.id ≡ id
find-id id [] f e = cc e
find-id id (g ∷ gs) f e = elim (Bool-cases (g.id == id)) [
  | inl h ↦
      let q : some g ≡ some f = ground (arith, h, e) in
      let p : g ≡ f = cc q in subst (λ x. x.id ≡ id) p ((string_eq.test_iff g.id id).0 h)
  | inr h ↦ find-id id gs f (ground (arith, h, e))
]
