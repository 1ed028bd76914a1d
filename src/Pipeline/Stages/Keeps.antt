-- ===== src/Pipeline/Stages/Keeps.antt =====
-- What the stages keep of the nodes and the relationships: their identifiers and their endpoints.
use identity_access_graph.Prelude.{
  ℕ, String, ◌≡◌, refl, ap₂, ◌∙◌, true, false, List, [], ◌∷◌, map, Option, none, some, ok, throw,
  ◌==◌, string_eq, Value, Object, get, get-set_ne, bool, obj, find, Bool-cases, inl, inr, Result,
  ◌>>=◌,
}
use identity_access_graph.Pipeline.Types.{
  Stage, extraction, normalization, identity_matching, graph_build, scheduling, StageData, failed,
  status_eq,
}
use identity_access_graph.Pipeline.Engine.{Outcome, Config}
use identity_access_graph.Pipeline.Run.{run_stages, after, Ran}
use identity_access_graph.Pipeline.Stages.{
  Times, normalized, Match, match_object, with_match, annotate, concerns, stage_handlers,
  identity_matching_stage, find_matches, ad_users, ipa_users, matched,
}

abbrev pub ids : List Object → List Value
ids = map (λ o. get o "id")

pub normalized-get :
    (o : Object) (key : String) → ("normalized" == key) ≡ false → get (normalized o) key ≡ get o key
normalized-get o key h = get-set_ne o "normalized" key (bool true) h

pub annotate-get :
    (ms : List Match) (o : Object) (key : String)
    → ("matchedIdentity" == key) ≡ false
    → get (annotate ms o) key ≡ get o key
annotate-get ms o key h = by_match (find (concerns (get o "id")) ms)
  where
    by_match : (m : Option Match) → get (with_match m o) key ≡ get o key
    by_match none = refl
    by_match (some m) = get-set_ne o "matchedIdentity" key (obj (match_object m)) h

pub ids-map :
    (f : Object → Object)
    → ((o : Object) → get (f o) "id" ≡ get o "id")
    → (os : List Object) → ids (map f os) ≡ ids os
ids-map f h [] = refl
ids-map f h (o ∷ os) = ap₂ ◌∷◌ (h o) (ids-map f h os)

-- The data have the same nodes and relationships, by their identifiers and in their order.
pub record SameIds (d' d : StageData) : Type 0 where
  pub nodes : ids d'.nodes ≡ ids d.nodes
  pub relationships : ids d'.relationships ≡ ids d.relationships

SameIds-trans : {a b c : StageData} → SameIds a b → SameIds b c → SameIds a c
SameIds-trans p q = record {
  nodes = p.nodes ∙ q.nodes;
  relationships = p.relationships ∙ q.relationships;
}

-- What an outcome says of the data that went in.
abbrev OutcomeKeeps : StageData → Outcome → Type 0
OutcomeKeeps d (throw m) = Unit
OutcomeKeeps d (ok (r, out)) = SameIds out d

identity_matching-SameIds :
    (t : Times) (d : StageData) → OutcomeKeeps d (identity_matching_stage t d)
unfolding identity_matching_stage
identity_matching-SameIds t d = by_matches (find_matches (ad_users d.nodes) (ipa_users d.nodes))
  where
    by_matches :
        (m : Result (List Match))
        → OutcomeKeeps d (m >>= λ ms. ok (matched t d (ad_users d.nodes) (ipa_users d.nodes) ms))
    by_matches (throw m) = tt
    by_matches (ok ms) = record {
      nodes = ids-map (annotate ms) (λ o. annotate-get ms o "id" refl) d.nodes;
      relationships = refl;
    }

handlers-SameIds : (t : Times) (s : Stage) (d : StageData) → OutcomeKeeps d (stage_handlers t s d)
unfolding stage_handlers
handlers-SameIds t extraction d = record { nodes = refl; relationships = refl }
handlers-SameIds t normalization d = record {
  nodes = ids-map normalized (λ o. normalized-get o "id" refl) d.nodes;
  relationships = ids-map normalized (λ o. normalized-get o "id" refl) d.relationships;
}
handlers-SameIds t identity_matching d = identity_matching-SameIds t d
handlers-SameIds t graph_build d = record { nodes = refl; relationships = refl }
handlers-SameIds t scheduling d = record { nodes = refl; relationships = refl }

module _ (t : Times) (timeout_ms : ℕ) where
  -- The engine's configuration with the handlers of the source.
  abbrev pub stage_config : Config
  stage_config = record { handlers = stage_handlers t; stage_timeout_ms = timeout_ms }

  after-SameIds :
      (s : Stage) (d : StageData) (o : Outcome) (k : StageData → Ran)
      → OutcomeKeeps d o
      → ((d' : StageData) → SameIds (k d').output d')
      → SameIds (after stage_config s d o k).output d
  after-SameIds s d (throw m) k h ih = record { nodes = refl; relationships = refl }
  after-SameIds s d (ok (r, out)) k h ih = elim (Bool-cases (r.status == failed)) [
    | inl f ↦ rw f (record { nodes = refl; relationships = refl })
    | inr f ↦ rw f (SameIds-trans (ih out) h)
  ]

  -- However far the stages get, their output has the nodes and the relationships of the input, by
  -- their identifiers: none is dropped, added or moved.
  pub run_stages-SameIds :
      (ss : List Stage) (d : StageData) → SameIds (run_stages stage_config ss d).output d
  unfolding run_stages
  run_stages-SameIds [] d = record { nodes = refl; relationships = refl }
  run_stages-SameIds (s ∷ ss) d =
      after-SameIds s d (stage_handlers t s d) (run_stages stage_config ss) (handlers-SameIds t s d)
        (run_stages-SameIds ss)
