-- ===== src/Correlate/Keys.antt =====
-- apps/backend/src/imports/correlation/correlation-strategies.ts: the fields by which records match,
-- and how their values are brought to one form.
--
-- `toLowerCase` and `toUpperCase` are arguments; of a record the fields are kept that the code reads.
use Prim.Native.Char.{code}
use identity_access_graph.Prelude.{
  ℕ, String, Bool, false, List, [], ◌∷◌, ◌==◌, string_eq, nat_eq, if◌then◌else◌, ◌&&◌, ◌||◌, not,
  Value, str, Object, get, or_else, to_text, ◌+s◌, all, map,
}
use identity_access_graph.Csv.Line.{is_space}

pub data MatchMethod : Type 0 where
  by_object_guid by_sid by_employee_id by_email by_username by_distinguished_name : MatchMethod
  by_composite_key by_none : MatchMethod

pub data Confidence : Type 0 where
  exact high medium low conflict : Confidence

pub record CorrelationRecord : Type 0 where
  pub record_id : String
  pub source_system : String
  pub fields : Object

pub record Case : Type 0 where
  pub lower : String → String
  pub upper : String → String

-- `s.trim()`.
skip_space : String → String
skip_space String.[] = ""
skip_space (String.◌∷◌ c s) =
    let rest = skip_space s in if is_space (code c) then rest else String.◌∷◌ c s

cut_space : String → String
cut_space String.[] = ""
cut_space (String.◌∷◌ c s) =
    let rest = cut_space s in if is_space (code c) && (rest == "") then "" else String.◌∷◌ c rest

unfoldable pub trim_text : String → String
unfolding skip_space cut_space
trim_text s = cut_space (skip_space s)

-- `s.split('\\').pop()`: what is behind the last backslash.
last_part : String → String → String
last_part part String.[] = part
last_part part (String.◌∷◌ c s) =
    last_part (if code c == 0x5c then "" else part +s String.◌∷◌ c "") s

-- `s.split('@')[0]`.
first_part : String → String
first_part String.[] = ""
first_part (String.◌∷◌ c s) =
    let rest = first_part s in if code c == 0x40 then "" else String.◌∷◌ c rest

has_char : ℕ → String → Bool
has_char k String.[] = false
has_char k (String.◌∷◌ c s) = (code c == k) || has_char k s

-- A text that begins with a comma.
begins_comma : String → Bool
begins_comma String.[] = false
begins_comma (String.◌∷◌ c s) = code c == 0x2c

-- `s.replace(/\s*,\s*/g, ',')`.
bare_commas : String → String
unfolding skip_space begins_comma
bare_commas String.[] = ""
bare_commas (String.◌∷◌ c s) =
    let rest = bare_commas s in
    if code c == 0x2c
    then String.◌∷◌ c (skip_space rest)
    else if is_space (code c) && begins_comma rest
    then rest
    else String.◌∷◌ c rest

module _ (k : Case) where
  unfoldable pub normalize_key : Value → String
  normalize_key v = k.lower (trim_text (to_text (or_else v (str ""))))

  unfoldable pub normalize_email : Value → String
  normalize_email v = normalize_key v

  unfoldable pub normalize_username : Value → String
  unfolding last_part first_part has_char
  normalize_username v =
      let s = normalize_key v in if has_char 0x5c s then last_part "" s else first_part s

  unfoldable pub normalize_dn : Value → String
  unfolding bare_commas
  normalize_dn v = bare_commas (normalize_key v)

pub record Strategy : Type 0 where
  pub field_name : String
  pub method : MatchMethod
  pub confidence : Confidence
  pub normalize : Value → String

abbrev strategy : String → MatchMethod → Confidence → (Value → String) → Strategy
strategy field_name method confidence normalize = record {
  field_name = field_name;
  method = method;
  confidence = confidence;
  normalize = normalize;
}

module _ (k : Case) where
  unfoldable pub strategies : List Strategy
  strategies =
      strategy "objectGUID" by_object_guid exact (normalize_key k)
      ∷ strategy "sid" by_sid exact (normalize_key k)
      ∷ strategy "employeeId" by_employee_id high (normalize_key k)
      ∷ strategy "email" by_email high (normalize_email k)
      ∷ strategy "username" by_username medium (normalize_username k)
      ∷ strategy "samAccountName" by_username medium (normalize_username k)
      ∷ strategy "userPrincipalName" by_username medium (normalize_username k)
      ∷ strategy "distinguishedName" by_distinguished_name medium (normalize_dn k)
      ∷ []

  -- `parts.join('|')`.
  abbrev join_bar : List String → String
  join_bar [] = ""
  join_bar (p ∷ []) = p
  join_bar (p ∷ q ∷ ps) = p +s "|" +s join_bar (q ∷ ps)

  abbrev key_parts : CorrelationRecord → List String → List String
  key_parts r fields = map (λ f. normalize_key k (get r.fields f)) fields

  -- The key of several fields together; the empty text where there is none.
  unfoldable pub composite_key : CorrelationRecord → List String → String
  composite_key r [] = ""
  composite_key r (f ∷ fs) =
      let parts = key_parts r (f ∷ fs) in
      if all (λ p. not (p == "")) parts then join_bar parts else ""
