-- ===== src/Prelude/JsonText.antt =====
-- Values as text: `String(v)` and template literals, `JSON.stringify(v)`.
use Prim.Native.Nat.{ℕ, ◌/◌, ◌%◌}
use Prim.Native.Char.{Char, code}
use Prim.Native.String.{String}
use mathlib.Core.Bool.{Bool, true, false}
use mathlib.Core.Option.{Option, none, some}
use mathlib.Core.List.{List, [], ◌∷◌}
use identity_access_graph.Prelude.Tests.{if◌then◌else◌, ltb, ◌==◌, nat_eq}
use identity_access_graph.Prelude.Lists.{get_elem?}
use identity_access_graph.Prelude.Decimal.{decimal, ◌+s◌}
use identity_access_graph.Prelude.Json.{
  Value, undefined, null, bool, num, hundredths, str, arr, obj, Items, nil, cons, Object, end,
  field,
}

bool_text : Bool → String
bool_text true = "true"
bool_text false = "false"

-- `n / 100`, for `n` that 100 does not divide.
hundredths_text : ℕ → String
hundredths_text n =
    decimal (n / 100)
    +s "."
    +s (if n % 10 == 0
        then decimal (n % 100 / 10)
        else if ltb (n % 100) 10
        then "0" +s decimal (n % 100)
        else decimal (n % 100))

unfoldable mutual
  unfolding bool_text hundredths_text decimal

  pub to_text : Value → String
  to_text undefined = "undefined"
  to_text null = "null"
  to_text (bool b) = bool_text b
  to_text (num n) = decimal n
  to_text (hundredths n) = hundredths_text n
  to_text (str s) = s
  to_text (arr vs) = join_items vs
  to_text (obj o) = "[object Object]"

  -- `Array.prototype.join`, by commas; `null` and `undefined` print as nothing.
  pub join_items : Items → String
  join_items nil = ""
  join_items (cons v vs) = element_text v +s join_rest vs

  pub join_rest : Items → String
  join_rest nil = ""
  join_rest (cons v vs) = "," +s element_text v +s join_rest vs

  pub element_text : Value → String
  element_text undefined = ""
  element_text null = ""
  element_text (bool b) = bool_text b
  element_text (num n) = decimal n
  element_text (hundredths n) = hundredths_text n
  element_text (str s) = s
  element_text (arr vs) = join_items vs
  element_text (obj o) = "[object Object]"

hex_digits : List String
hex_digits =
    "0" ∷ "1" ∷ "2" ∷ "3" ∷ "4" ∷ "5" ∷ "6" ∷ "7" ∷ "8" ∷ "9" ∷ "a" ∷ "b" ∷ "c" ∷ "d" ∷ "e" ∷ "f"
    ∷ []

hex_digit : ℕ → String
unfolding hex_digits
hex_digit n = elim (get_elem? hex_digits n) [ none ↦ "" | some s ↦ s ]

-- A character of a text in JSON.
escaped : Char → String
unfolding hex_digit
escaped c =
    let n = code c in
    if n == 0x22
    then "\\\""
    else if n == 0x5c
    then "\\\\"
    else if n == 8
    then "\\b"
    else if n == 9
    then "\\t"
    else if n == 10
    then "\\n"
    else if n == 12
    then "\\f"
    else if n == 13
    then "\\r"
    else if ltb n 32
    then "\\u00" +s hex_digit (n / 16) +s hex_digit (n % 16)
    else String.◌∷◌ c ""

escape : String → String
unfolding escaped
escape String.[] = ""
escape (String.◌∷◌ c s) = escaped c +s escape s

abbrev quoted : String → String
quoted s = "\"" +s escape s +s "\""

abbrev field_json : String → String → Option String → String → String → String
field_json comma k none bare later = bare
field_json comma k (some v) bare later = comma +s quoted k +s ":" +s v +s later

unfoldable mutual
  unfolding bool_text hundredths_text decimal escape

  -- What `JSON.stringify` prints of a value; `none` for `undefined`, which it leaves out of an
  -- object and prints as `null` in an array.
  pub value_json : Value → Option String
  value_json undefined = none
  value_json null = some "null"
  value_json (bool b) = some (bool_text b)
  value_json (num n) = some (decimal n)
  value_json (hundredths n) = some (hundredths_text n)
  value_json (str s) = some (quoted s)
  value_json (arr vs) = some ("[" +s items_json "" vs +s "]")
  value_json (obj o) = some ("{" +s fields_json "" o +s "}")

  pub items_json : String → Items → String
  items_json comma nil = ""
  items_json comma (cons v vs) =
      comma +s elim (value_json v) [ none ↦ "null" | some s ↦ s ] +s items_json "," vs

  pub fields_json : String → Object → String
  fields_json comma end = ""
  fields_json comma (field k v o) =
      field_json comma k (value_json v) (fields_json comma o) (fields_json "," o)

abbrev pub stringify : Object → String
stringify o = "{" +s fields_json "" o +s "}"
