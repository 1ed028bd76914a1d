-- ===== src/Pipeline/Stages/Integrity.antt =====
-- When a run over the source's handlers completes.
use identity_access_graph.Prelude.{
  ℕ, String, ◌≡◌, refl, sym, ap, ap₂, subst, ◌∙◌, ◌↔◌, Bool, true, false, ◌||◌, List, [], ◌∷◌, ◌++◌,
  map, none, some, ok, string_eq, Value, undefined, null, str, Object, get, strict_equal, Returns,
  >>=-Returns, if-Returns, All, arith, filter, if◌then◌else◌, or_else, length, ◌≢◌,
}
use identity_access_graph.Pipeline.Types.{StageData, running, completed, status_eq, stages_order}
use identity_access_graph.Pipeline.Engine.{Config}
use identity_access_graph.Pipeline.Engine.{System}
use identity_access_graph.Pipeline.Methods.{start}
use identity_access_graph.Pipeline.Step.{calls, step}
use identity_access_graph.Pipeline.Run.{rounds}
use identity_access_graph.Pipeline.Run.Sequential.{start-EndsAs}
use identity_access_graph.Pipeline.Run.{run_stages}
use identity_access_graph.Pipeline.Stages.{
  Times, normalized, annotate, source_of, target_of, has_id, stage_handlers, find_matches,
  find_match, same_person, local_part, ad_users, ipa_users, relationship_errors, graph_errors,
  verdict, is_user_of, node_ref,
}
use identity_access_graph.Pipeline.Stages.Keeps.{
  ids, normalized-get, annotate-get, ids-map, stage_config,
}

-- Every relationship runs between nodes that are there.
abbrev pub IsIntact : List Object → List Object → Type 0
IsIntact nodes =
    All (λ r. (has_id nodes (source_of r) ≡ true) × (has_id nodes (target_of r) ≡ true))

-- A value that `?.split` can take.
abbrev pub IsText : Value → Type 0
IsText undefined = Unit
IsText null = Unit
IsText (str s) = Unit
IsText _ = ⊥

abbrev pub HasTexts : List Object → Type 0
HasTexts = All (λ n. IsText (get n "email") × IsText (get n "principalName"))

relationship_errors-eq-nil_iff :
    (nodes : List Object) (r : Object)
    → (relationship_errors nodes r ≡ [])
      ↔ ((has_id nodes (source_of r) ≡ true) × (has_id nodes (target_of r) ≡ true))
unfolding relationship_errors
relationship_errors-eq-nil_iff nodes r = ground arith

append-eq-nil {ℓ} : {A : Type ℓ} (xs ys : List A) → (xs ++ ys ≡ []) → (xs ≡ []) × (ys ≡ [])
append-eq-nil [] ys h = (refl, h)
append-eq-nil (x ∷ xs) ys h = cc

graph_errors-eq-nil_iff :
    (nodes rs : List Object) → (graph_errors nodes rs ≡ []) ↔ IsIntact nodes rs
unfolding graph_errors
graph_errors-eq-nil_iff nodes [] = (λ _. tt, λ _. refl)
graph_errors-eq-nil_iff nodes (r ∷ rs) =
    let here = relationship_errors-eq-nil_iff nodes r in
    let later = graph_errors-eq-nil_iff nodes rs in
    (
      λ e.
          let (e1, e2) = append-eq-nil (relationship_errors nodes r) (graph_errors nodes rs) e in
          (here.0 e1, later.0 e2),
      λ h. rw (here.1 h.0, later.1 h.1),
    )

-- Renaming what is not looked at changes neither side.
has_id-ids : (ns ms : List Object) (v : Value) → ids ns ≡ ids ms → has_id ns v ≡ has_id ms v
has_id-ids [] [] v h = refl
has_id-ids [] (m ∷ ms) v h = cc
has_id-ids (n ∷ ns) [] v h = cc
has_id-ids (n ∷ ns) (m ∷ ms) v h =
    let same : get n "id" ≡ get m "id" = cc in
    let rest : ids ns ≡ ids ms = cc in
    ap₂ (λ a b. strict_equal a v || b) same (has_id-ids ns ms v rest)

source_of-normalized : (r : Object) → source_of (normalized r) ≡ source_of r
source_of-normalized r =
    ap₂ (λ a b. or_else a (node_ref b)) (normalized-get r "sourceNodeId" refl)
      (normalized-get r "source" refl)

target_of-normalized : (r : Object) → target_of (normalized r) ≡ target_of r
target_of-normalized r =
    ap₂ (λ a b. or_else a (node_ref b)) (normalized-get r "targetNodeId" refl)
      (normalized-get r "target" refl)

IsIntact-normalized_iff :
    (ns ms rs : List Object) → ids ns ≡ ids ms → IsIntact ns (map normalized rs) ↔ IsIntact ms rs
IsIntact-normalized_iff ns ms [] h = (λ x. x, λ x. x)
IsIntact-normalized_iff ns ms (r ∷ rs) h =
    let s = ap (has_id ns) (source_of-normalized r) ∙ has_id-ids ns ms (source_of r) h in
    let t = ap (has_id ns) (target_of-normalized r) ∙ has_id-ids ns ms (target_of r) h in
    let rest = IsIntact-normalized_iff ns ms rs h in
    (λ x. ((sym s ∙ x.0.0, sym t ∙ x.0.1), rest.0 x.1), λ x. ((s ∙ x.0.0, t ∙ x.0.1), rest.1 x.1))

-- On texts the matching throws nothing.
local_part_text : (v : Value) → IsText v → Returns (local_part v)
unfolding local_part
local_part_text undefined h = (undefined, refl)
local_part_text null h = (undefined, refl)
local_part_text (str s) h = (_, refl)
local_part_text _ h = absurd h

same_person_total :
    (ad ipa : Object)
    → IsText (get ad "email")
    → IsText (get ipa "principalName")
    → Returns (same_person ad ipa)
unfolding same_person
same_person_total ad ipa p q =
    if-Returns (strict_equal (get ad "sourceId") (get ipa "sourceId")) _ _ (true, refl)
      (>>=-Returns (local_part (get ad "email")) _ (local_part_text (get ad "email") p) (
        >>=-Returns (local_part (get ipa "principalName")) _
          (local_part_text (get ipa "principalName") q) (_, refl)))

find_match_total :
    (ad : Object) (ipas : List Object)
    → IsText (get ad "email")
    → HasTexts ipas
    → Returns (find_match ad ipas)
unfolding find_match
find_match_total ad [] p h = (none, refl)
find_match_total ad (ipa ∷ ipas) p h =
    let (same, e) = same_person_total ad ipa p h.0.1 in
    >>=-Returns (same_person ad ipa) _ (same, e)
      (if-Returns same (ok (some ipa)) (find_match ad ipas) (some ipa, refl)
        (find_match_total ad ipas p h.1))

find_matches_total :
    (ads ipas : List Object) → HasTexts ads → HasTexts ipas → Returns (find_matches ads ipas)
unfolding find_matches
find_matches_total [] ipas p h = ([], refl)
find_matches_total (ad ∷ ads) ipas p h =
    >>=-Returns (find_match ad ipas) _ (find_match_total ad ipas p.0.0 h)
      (>>=-Returns (find_matches ads ipas) _ (find_matches_total ads ipas p.1 h) (_, refl))

All-if :
    (P : Object → Type 0) (b : Bool) (xs ys : List Object)
    → All P xs
    → All P ys
    → All P (if b then xs else ys)
All-if P true xs ys p q = p
All-if P false xs ys p q = q

All-filter :
    (P : Object → Type 0) (t : Object → Bool) (os : List Object) → All P os → All P (filter t os)
All-filter P t [] h = tt
All-filter P t (o ∷ os) h =
    let rest = All-filter P t os h.1 in
    All-if P (t o) (o ∷ filter t os) (filter t os) (h.0, rest) rest

HasTexts-normalized : (os : List Object) → HasTexts os → HasTexts (map normalized os)
HasTexts-normalized [] h = tt
HasTexts-normalized (o ∷ os) h = (
  (
    subst IsText (sym (normalized-get o "email" refl)) h.0.0,
    subst IsText (sym (normalized-get o "principalName" refl)) h.0.1,
  ),
  HasTexts-normalized os h.1,
)

module _ (t : Times) (timeout_ms : ℕ) (d : StageData) (texts : HasTexts d.nodes) where
  abbrev c : Config
  c = stage_config t timeout_ms

  abbrev nodes : List Object
  nodes = map normalized d.nodes

  matches : Returns (find_matches (ad_users nodes) (ipa_users nodes))
  matches =
      let texts' = HasTexts-normalized d.nodes texts in
      find_matches_total (ad_users nodes) (ipa_users nodes)
        (All-filter _ (is_user_of "ACTIVE_DIRECTORY") nodes texts')
        (All-filter _ (is_user_of "FREE_IPA") nodes texts')

  abbrev built_nodes : List Object
  built_nodes = map (annotate matches.0) nodes

  abbrev errors : List String
  errors = graph_errors built_nodes (map normalized d.relationships)

  status-verdict :
      (es : List String) → errors ≡ es → (run_stages c stages_order d).status ≡ verdict es
  unfolding run_stages stage_handlers
  status-verdict [] h = rw matches.1 (rw h)
  status-verdict (e ∷ es) h = rw matches.1 (rw h)

  run_stages-completed_iff :
      ((run_stages c stages_order d).status ≡ completed) ↔ IsIntact d.nodes d.relationships
  run_stages-completed_iff =
      let built = graph_errors-eq-nil_iff built_nodes (map normalized d.relationships) in
      let same =
        ids-map (annotate matches.0) (λ o. annotate-get matches.0 o "id" refl) nodes
        ∙ ids-map normalized (λ o. normalized-get o "id" refl) d.nodes in
      let kept = IsIntact-normalized_iff built_nodes d.nodes d.relationships same in
      let status = status-verdict errors refl in
      (
        λ h. kept.0 (built.0 (ok_of errors (sym status ∙ h))),
        λ h. status ∙ ap verdict (built.1 (kept.1 h)),
      )
    where
      ok_of : (es : List String) → verdict es ≡ completed → es ≡ []
      ok_of [] h = refl
      ok_of (e ∷ es) h = cc

-- Over the source's handlers, on an engine that is not running, with no stage completed and no
-- activation under way, and on data whose mail addresses and principal names are texts or left out:
-- `start`, followed by as many undisturbed rounds as there are stages, ends with a completed run
-- exactly when both ends of every relationship are nodes of the data.
pub start-completed_iff :
    (t : Times) (timeout_ms : ℕ) (id now : String) (s : System) (d : StageData)
    → HasTexts d.nodes
    → s.threads ≡ []
    → s.engine.run.status ≢ running
    → s.engine.run.completed_stages ≡ []
    → let c = stage_config t timeout_ms in
      ((rounds c
          (length stages_order)
          id
          now
          (step c (calls (start d)) id now s).0).engine.run.status
        ≡ completed)
      ↔ IsIntact d.nodes d.relationships
start-completed_iff t timeout_ms id now s d texts ht hr hc =
    let c = stage_config t timeout_ms in
    let status = (start-EndsAs c id now s d ht hr hc).status in
    let same = run_stages-completed_iff t timeout_ms d texts in
    (λ h. same.0 (sym status ∙ h), λ h. status ∙ same.1 h)
