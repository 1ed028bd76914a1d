-- ===== src/Csv/Line.antt =====
-- apps/backend/src/imports/parsers/csv-parser.ts: `parseCsvLine` and `truncateCell`.
--
-- A text is the list of its UTF-16 code units.
use identity_access_graph.Prelude.{
  ℕ, Bool, true, false, not, ◌&&◌, ◌||◌, List, [], ◌∷◌, ◌++◌, Option, none, some, ◌==◌, nat_eq,
  if◌then◌else◌, ltb, leb, take, length, head?,
}

abbrev pub Text : Type 0
Text = List ℕ

abbrev pub quote : ℕ
quote = 0x22

abbrev pub comma : ℕ
comma = 0x2c

-- White space and line terminators, which `trim` takes off.
unfoldable pub is_space : ℕ → Bool
is_space c =
    (leb 9 c && leb c 13)
    || c == 0x20
    || c == 0xa0
    || c == 0x1680
    || (leb 0x2000 c && leb c 0x200a)
    || c == 0x2028
    || c == 0x2029
    || c == 0x202f
    || c == 0x205f
    || c == 0x3000
    || c == 0xfeff

abbrev trim_start : Text → Text
trim_start [] = []
trim_start (c ∷ cs) = let rest = trim_start cs in if is_space c then rest else c ∷ cs

abbrev keep_end : Bool → ℕ → Text → Text
keep_end true c [] = []
keep_end space c rest = c ∷ rest

abbrev trim_end : Text → Text
trim_end [] = []
trim_end (c ∷ cs) = keep_end (is_space c) c (trim_end cs)

unfoldable pub trim : Text → Text
trim t = trim_end (trim_start t)

-- The variables of the loop; `skip` is the `i++` in its body, by which it passes over a unit.
pub record Scan : Type 0 where
  pub result : List Text
  pub current : Text
  pub in_quotes : Bool
  pub skip : Bool

abbrev is_quote : Option ℕ → Bool
is_quote none = false
is_quote (some c) = c == quote

-- The body of the loop at `ch`, with `line[i + 1]`.
abbrev pub scan_unit : ℕ → Option ℕ → Scan → Scan
scan_unit ch next s =
    if s.skip
    then record s { skip = false }
    else if ch == quote
    then (if s.in_quotes && is_quote next
        then record s { current = s.current ++ quote ∷ []; skip = true }
        else record s { in_quotes = not s.in_quotes })
    else if ch == comma && not s.in_quotes
    then record s { result = s.result ++ trim s.current ∷ []; current = [] }
    else record s { current = s.current ++ ch ∷ [] }

abbrev pub scan_line : Text → Scan → Scan
scan_line [] s = s
scan_line (ch ∷ cs) s = scan_line cs (scan_unit ch (head? cs) s)

unfoldable pub parse_csv_line : Text → List Text
parse_csv_line line =
    let s =
      scan_line line (record { result = []; current = []; in_quotes = false; skip = false }) in
    s.result ++ trim s.current ∷ []

abbrev pub dots : Text
dots = 0x2e ∷ 0x2e ∷ 0x2e ∷ []

unfoldable pub truncate_cell : ℕ → Text → Text
truncate_cell max_cell_length val =
    if ltb max_cell_length (length val) then take max_cell_length val ++ dots else val
