-- ===== src/Pipeline/Stages.antt =====
-- apps/backend/src/pipeline/stages/index.ts: the five stage handlers.
--
-- What a handler reads from the clock is a `Times`: the text of `now()` for the result's metadata
-- and for the output's, the time of the next run, and the milliseconds from its start to its end.
-- A handler throws where the source calls `split` on a value that is no text.
pub mod Keeps
pub mod Integrity
pub mod Matching
use Prim.Native.Char.{code}
use Prim.Native.String
use identity_access_graph.Prelude.{
  ℕ, ◌+◌, String, Bool, true, false, not, ◌||◌, ◌&&◌, List, [], ◌∷◌, ◌++◌, map, Option, none, some,
  Result, ok, throw, ◌==◌, nat_eq, string_eq, if◌then◌else◌, length, filter, find, any, ◌+s◌,
  decimal, to_text, stringify, Value, undefined, null, bool, num, hundredths, str, arr, obj, Items,
  nil, cons, Object, end, field, items, get, set, truthy, or_else, strict_equal, ◌>>=◌,
}
use identity_access_graph.Pipeline.Types.{
  Stage, extraction, normalization, identity_matching, graph_build, scheduling, Status, completed,
  failed, StageResult, StageData,
}
use identity_access_graph.Pipeline.Engine.{Outcome}

pub record Times : Type 0 where
  pub now_result : String
  pub now_output : String
  pub next_run : String
  pub duration_ms : ℕ

-- `[...new Set(values)]`: the first of each.
abbrev pub insert_new : List Value → Value → List Value
insert_new seen v = if any (λ w. strict_equal w v) seen then seen else seen ++ v ∷ []

unfoldable pub distinct_from : List Value → List Value → List Value
distinct_from seen [] = seen
distinct_from seen (v ∷ vs) = distinct_from (insert_new seen v) vs

-- `errors.length > 0 ? Failed : Completed`.
abbrev pub verdict : List String → Status
verdict [] = completed
verdict (e ∷ es) = failed

extracted_text : Object → List Object → String
extracted_text metadata [] = "No nodes extracted — empty graph"
extracted_text metadata (n ∷ ns) =
    "Extracted "
    +s decimal (length (n ∷ ns))
    +s " nodes from "
    +s to_text (or_else (get metadata "source") (str "unknown"))
    +s " source"

unfoldable pub extraction_stage : Times → StageData → Outcome
unfolding distinct_from extracted_text
extraction_stage t input = ok (
  record {
    stage = extraction;
    status = completed;
    input_count = length input.nodes;
    output_count = length input.nodes + length input.relationships;
    duration_ms = t.duration_ms;
    warnings = extracted_text input.metadata input.nodes ∷ [];
    errors = [];
    metadata = field "extractedAt" (str t.now_result) (
        field "source" (or_else (get input.metadata "source") (str "import")) (
          field "nodeTypes"
            (arr (items (distinct_from [] (map (λ n. get n "nodeType") input.nodes)))) end));
  },
  record input { metadata = set input.metadata "extractedAt" (str t.now_output) },
)

abbrev pub normalized : Object → Object
normalized o = set o "normalized" (bool true)

-- The warning of an object that lacks one of two keys.
unfoldable pub missing : String → String → Object → List String
missing text key o =
    if not (truthy (get o "id")) || not (truthy (get o key)) then (text +s stringify o) ∷ [] else []

unfoldable pub missing_all : String → String → List Object → List String
unfolding missing
missing_all text key [] = []
missing_all text key (o ∷ os) = missing text key o ++ missing_all text key os

unfoldable pub normalization_stage : Times → StageData → Outcome
unfolding missing_all
normalization_stage t input = ok (
  record {
    stage = normalization;
    status = completed;
    input_count = length input.nodes + length input.relationships;
    output_count = length input.nodes + length input.relationships;
    duration_ms = t.duration_ms;
    warnings =
        missing_all "Node missing id or displayName: " "displayName" input.nodes
        ++ missing_all "Relationship missing id or type: " "relationshipType" input.relationships;
    errors = [];
    metadata = field "normalizedAt" (str t.now_result) end;
  },
  record {
    nodes = map normalized input.nodes;
    relationships = map normalized input.relationships;
    metadata = set input.metadata "normalizedAt" (str t.now_output);
  },
)

-- The text before the first "@": `s.split('@')[0]`.
unfoldable pub before_at : String → String
before_at String.[] = ""
before_at (String.◌∷◌ ch s) =
    let rest = before_at s in if code ch == 0x40 then "" else String.◌∷◌ ch rest

-- `v?.split('@')[0]`.
unfoldable pub local_part : Value → Result Value
local_part undefined = ok undefined
local_part null = ok undefined
local_part (str s) = ok (str (before_at s))
local_part _ = throw "split is not a function"

-- The test by which a FreeIPA user is taken for an Active Directory user.
unfoldable pub same_person : Object → Object → Result Bool
unfolding local_part before_at
same_person ad ipa = if strict_equal (get ad "sourceId") (get ipa "sourceId") then ok true else (do
  a ← local_part (get ad "email")
  b ← local_part (get ipa "principalName")
  ok (strict_equal a b))

unfoldable pub find_match : Object → List Object → Result (Option Object)
find_match ad [] = ok none
find_match ad (ipa ∷ rest) = do
  same ← same_person ad ipa
  if same then ok (some ipa) else find_match ad rest

pub record Match : Type 0 where
  pub ad_id : Value
  pub free_ipa_id : Value

abbrev pub match_object : Match → Object
match_object m =
    field "adId" m.ad_id (field "freeIpaId" m.free_ipa_id (field "confidence" (hundredths 95) end))

abbrev pub add_match : Object → Option Object → List Match → List Match
add_match ad none ms = ms
add_match ad (some ipa) ms = record { ad_id = get ad "id"; free_ipa_id = get ipa "id" } ∷ ms

unfoldable pub find_matches : List Object → List Object → Result (List Match)
unfolding find_match
find_matches [] ipas = ok []
find_matches (ad ∷ ads) ipas = do
  found ← find_match ad ipas
  rest ← find_matches ads ipas
  ok (add_match ad found rest)

abbrev pub is_user_of : String → Object → Bool
is_user_of system n =
    strict_equal (get n "nodeType") (str "USER") && strict_equal (get n "sourceSystem") (str system)

-- `matches.find(…)` and the node with its match.
abbrev pub concerns : Value → Match → Bool
concerns id m = strict_equal m.ad_id id || strict_equal m.free_ipa_id id

abbrev pub with_match : Option Match → Object → Object
with_match none n = n
with_match (some m) n = set n "matchedIdentity" (obj (match_object m))

abbrev pub annotate : List Match → Object → Object
annotate ms n = with_match (find (concerns (get n "id")) ms) n

abbrev matched_text : List Match → List String
matched_text [] = []
matched_text (m ∷ ms) =
    ("Found " +s decimal (length (m ∷ ms)) +s " identity match(es) across AD ↔ FreeIPA") ∷ []

abbrev match_values : List Match → List Value
match_values = map (λ m. obj (match_object m))

unfoldable pub matched :
    Times → StageData → List Object → List Object → List Match → StageResult × StageData
matched t input ads ipas matches = (
  record {
    stage = identity_matching;
    status = completed;
    input_count = length ads + length ipas;
    output_count = length matches;
    duration_ms = t.duration_ms;
    warnings = matched_text matches;
    errors = [];
    metadata = field "matchedAt" (str t.now_result) (
        field "matchCount" (num (length matches))
          (field "adUserCount" (num (length ads)) (field "ipaUserCount" (num (length ipas)) end)));
  },
  record input {
    nodes = map (annotate matches) input.nodes;
    metadata =
        set (set input.metadata "matchedAt" (str t.now_output)) "matches"
          (arr (items (match_values matches)));
  },
)

abbrev pub ad_users : List Object → List Object
ad_users = filter (is_user_of "ACTIVE_DIRECTORY")

abbrev pub ipa_users : List Object → List Object
ipa_users = filter (is_user_of "FREE_IPA")

unfoldable pub identity_matching_stage : Times → StageData → Outcome
unfolding matched
identity_matching_stage t input = do
  matches ← find_matches (ad_users input.nodes) (ipa_users input.nodes)
  ok (matched t input (ad_users input.nodes) (ipa_users input.nodes) matches)

-- `typeof v === 'object' ? v?.id : v`.
abbrev pub node_ref : Value → Value
node_ref null = undefined
node_ref (arr vs) = undefined
node_ref (obj o) = get o "id"
node_ref v = v

abbrev pub source_of : Object → Value
source_of r = or_else (get r "sourceNodeId") (node_ref (get r "source"))

abbrev pub target_of : Object → Value
target_of r = or_else (get r "targetNodeId") (node_ref (get r "target"))

abbrev pub has_id : List Object → Value → Bool
has_id nodes v = any (λ n. strict_equal (get n "id") v) nodes

abbrev dangling_text : Object → String → Value → String
dangling_text r end_name v =
    "Relationship "
    +s to_text (get r "id")
    +s ": "
    +s end_name
    +s " node '"
    +s to_text v
    +s "' not found"

unfoldable pub relationship_errors : List Object → Object → List String
relationship_errors nodes r =
    (if has_id nodes (source_of r) then [] else dangling_text r "source" (source_of r) ∷ [])
    ++ (if has_id nodes (target_of r) then [] else dangling_text r "target" (target_of r) ∷ [])

unfoldable pub graph_errors : List Object → List Object → List String
graph_errors nodes [] = []
graph_errors nodes (r ∷ rs) = relationship_errors nodes r ++ graph_errors nodes rs

-- A counter per key, by `counts[key] = (counts[key] ?? 0) + 1`.
abbrev increment : Value → Value
increment (num n) = num (n + 1)
increment _ = num 1

count_types : Object → List Object → Object
count_types counts [] = counts
count_types counts (n ∷ ns) =
    let key = to_text (or_else (get n "nodeType") (str "UNKNOWN")) in
    count_types (set counts key (increment (get counts key))) ns

abbrev is_completed : Status → Bool
is_completed completed = true
is_completed _ = false

unfoldable pub graph_build_stage : Times → StageData → Outcome
unfolding count_types
graph_build_stage t input =
    let errors = graph_errors input.nodes input.relationships in
    let size = length input.nodes + length input.relationships in
    ok (
      record {
        stage = graph_build;
        status = verdict errors;
        input_count = size;
        output_count = size;
        duration_ms = t.duration_ms;
        warnings = [];
        errors = errors;
        metadata = field "builtAt" (str t.now_result) (
            field "nodeCount" (num (length input.nodes)) (
              field "relationshipCount" (num (length input.relationships))
                (field "nodeTypeCounts" (obj (count_types end input.nodes)) end)));
      },
      record input {
        metadata =
            set (set input.metadata "builtAt" (str t.now_output)) "validated"
              (bool (is_completed (verdict errors)));
      },
    )

unfoldable pub scheduling_stage : Times → StageData → Outcome
scheduling_stage t input = ok (
  record {
    stage = scheduling;
    status = completed;
    input_count = length input.nodes + length input.relationships;
    output_count = 1;
    duration_ms = t.duration_ms;
    warnings = [];
    errors = [];
    metadata = field "scheduledAt" (str t.now_result) (
        field "nextRun" (str t.next_run)
          (field "intervalMs" (num 3600000) (field "cronExpression" (str "0 * * * *") end)));
  },
  record input {
    metadata = set (set input.metadata "scheduledAt" (str t.now_output)) "nextRun" (str t.next_run);
  },
)

-- `stageHandlers`.
unfoldable pub stage_handlers : Times → Stage → StageData → Outcome
unfolding extraction_stage normalization_stage identity_matching_stage graph_build_stage
    scheduling_stage
stage_handlers t extraction = extraction_stage t
stage_handlers t normalization = normalization_stage t
stage_handlers t identity_matching = identity_matching_stage t
stage_handlers t graph_build = graph_build_stage t
stage_handlers t scheduling = scheduling_stage t
