-- ===== src/Risk/Ranking.antt =====
-- What `list` of apps/backend/src/risk/finding.repository.ts returns, and which runs it keeps.
use identity_access_graph.Prelude.{
  length-take, length-drop, ℕ, zero, suc, ◌≤◌, min, max, ◌≡◌, refl, ap, Bool, true, List, [], ◌∷◌,
  inl, inr, nat_eq, ◌-◌, string_eq, Bool-cases, leb, leb→le, filter, take, drop, length, All, arith,
  ◌∙◌,
}
use identity_access_graph.Risk.Types.{
  finding_status_eq, severity_eq, category_eq, RiskFinding, FindingFilters,
}
use identity_access_graph.Risk.Repository.{Repository}
use identity_access_graph.Risk.Listing.{selects, insert_finding, sort_findings, list_findings}
use identity_access_graph.Risk.Scan.{or_default}

filter-All : (p : RiskFinding → Bool) (fs : List RiskFinding) → All (λ f. p f ≡ true) (filter p fs)
filter-All p [] = tt
filter-All p (f ∷ fs) = elim (Bool-cases (p f)) [
  | inl e ↦ rw e (e, filter-All p fs)
  | inr e ↦ rw e (filter-All p fs)
]

module _ (P : RiskFinding → Type 0) where
  insert_finding-All :
      (f : RiskFinding) (gs : List RiskFinding) → P f → All P gs → All P (insert_finding f gs)
  insert_finding-All f [] p a = (p, tt)
  insert_finding-All f (g ∷ gs) p (q, a) = elim (Bool-cases (leb g.score f.score)) [
    | inl e ↦ rw e (p, (q, a))
    | inr e ↦ rw e (q, insert_finding-All f gs p a)
  ]

  sort_findings-All : (fs : List RiskFinding) → All P fs → All P (sort_findings fs)
  sort_findings-All [] a = tt
  sort_findings-All (f ∷ fs) (p, a) =
      insert_finding-All f (sort_findings fs) p (sort_findings-All fs a)

  take-All : (n : ℕ) (fs : List RiskFinding) → All P fs → All P (take n fs)
  take-All zero fs a = tt
  take-All (suc n) [] a = tt
  take-All (suc n) (f ∷ fs) (p, a) = (p, take-All n fs a)

  drop-All : (n : ℕ) (fs : List RiskFinding) → All P fs → All P (drop n fs)
  drop-All zero fs a = a
  drop-All (suc n) [] a = tt
  drop-All (suc n) (f ∷ fs) (p, a) = drop-All n fs a

-- The scores do not rise along the list.
abbrev pub IsRanked : List RiskFinding → Type 0
IsRanked [] = Unit
IsRanked (f ∷ fs) = All (λ g. g.score ≤ f.score) fs × IsRanked fs

le-All :
    (m n : ℕ) (fs : List RiskFinding)
    → m ≤ n
    → All (λ g. g.score ≤ m) fs
    → All (λ g. g.score ≤ n) fs
le-All m n [] h a = tt
le-All m n (f ∷ fs) h (p, a) = (omega (arith, p, h), le-All m n fs h a)

insert_finding-IsRanked :
    (f : RiskFinding) (gs : List RiskFinding) → IsRanked gs → IsRanked (insert_finding f gs)
insert_finding-IsRanked f [] r = (tt, tt)
insert_finding-IsRanked f (g ∷ gs) (a, r) = elim (Bool-cases (leb g.score f.score)) [
  | inl e ↦ rw e ((leb→le _ _ e, le-All g.score f.score gs (leb→le _ _ e) a), (a, r))
  | inr e ↦ rw e (
    insert_finding-All (λ h. h.score ≤ g.score) f gs (ground (arith, e)) a,
    insert_finding-IsRanked f gs r,
  )
]

sort_findings-IsRanked : (fs : List RiskFinding) → IsRanked (sort_findings fs)
sort_findings-IsRanked [] = tt
sort_findings-IsRanked (f ∷ fs) =
    insert_finding-IsRanked f (sort_findings fs) (sort_findings-IsRanked fs)

take-IsRanked : (n : ℕ) (fs : List RiskFinding) → IsRanked fs → IsRanked (take n fs)
take-IsRanked zero fs r = tt
take-IsRanked (suc n) [] r = tt
take-IsRanked (suc n) (f ∷ fs) (a, r) =
    (take-All (λ g. g.score ≤ f.score) n fs a, take-IsRanked n fs r)

drop-IsRanked : (n : ℕ) (fs : List RiskFinding) → IsRanked fs → IsRanked (drop n fs)
drop-IsRanked zero fs r = r
drop-IsRanked (suc n) [] r = tt
drop-IsRanked (suc n) (f ∷ fs) (a, r) = drop-IsRanked n fs r

length-insert_finding :
    (f : RiskFinding) (gs : List RiskFinding) → length (insert_finding f gs) ≡ suc (length gs)
length-insert_finding f [] = refl
length-insert_finding f (g ∷ gs) = elim (Bool-cases (leb g.score f.score)) [
  | inl e ↦ rw e refl
  | inr e ↦ rw e (ap suc (length-insert_finding f gs))
]

length-sort_findings : (fs : List RiskFinding) → length (sort_findings fs) ≡ length fs
length-sort_findings [] = refl
length-sort_findings (f ∷ fs) =
    length-insert_finding f (sort_findings fs) ∙ ap suc (length-sort_findings fs)

-- A page of findings holds only findings that pass every filter, by descending score, and as many
-- as the limit (100 unless it is given, from 1 to 5000) and the findings behind the offset allow.
pub list_findings-page :
    (q : FindingFilters) (r : Repository)
    → All (λ f. selects q f ≡ true) (list_findings q r)
      × IsRanked (list_findings q r)
      × (length (list_findings q r)
          ≡ min
              (min 5000 (max 1 (or_default q.limit 100)))
              (length (filter (selects q) r.findings) - or_default q.offset 0))
unfolding list_findings
list_findings-page q r =
    let chosen = filter (selects q) r.findings in
    let offset = max 0 (or_default q.offset 0) in
    let limit = min 5000 (max 1 (or_default q.limit 100)) in
    let P = λ (f : RiskFinding). selects q f ≡ true in
    (
      take-All P limit (drop offset (sort_findings chosen)) (
          drop-All P offset (sort_findings chosen)
            (sort_findings-All P chosen (filter-All (selects q) r.findings))),
      take-IsRanked limit (drop offset (sort_findings chosen))
          (drop-IsRanked offset (sort_findings chosen) (sort_findings-IsRanked chosen)),
      omega (
        arith,
        length-take limit (drop offset (sort_findings chosen)),
        length-drop offset (sort_findings chosen),
        length-sort_findings chosen,
      ),
    )
