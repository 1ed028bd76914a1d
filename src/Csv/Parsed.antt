-- ===== src/Csv/Parsed.antt =====
-- apps/backend/src/imports/parsers/csv-parser.ts: the sheet that `parseCsv` resolves to.
use identity_access_graph.Prelude.{
  take-nil, ℕ, ◌+◌, ◌≤◌, min, ◌≡◌, refl, String, List, [], ◌∷◌, ◌++◌, ◌==◌, nat_eq, if◌then◌else◌,
  ltb, take, length, arith, sym, inl, inr, Bool-cases,
}
use identity_access_graph.Csv.Line.{Text}
use identity_access_graph.Csv.Sheet.{
  Row, SheetWarning, empty_column, duplicate_rows, empty_sheet, Limits, Reader, new_reader,
  on_lines,
}
use identity_access_graph.Csv.Counts.{on_lines-counts}

pub record ParsedSheet : Type 0 where
  pub name : Text
  pub row_count : ℕ
  pub column_count : ℕ
  pub headers : List Text
  pub preview_rows : List Row
  pub warnings : List SheetWarning
  pub classification : String
  pub classification_confidence : ℕ
  pub all_rows : List Row

unfoldable pub empty_result : Text → String → ParsedSheet
empty_result name msg = record {
  name = name;
  row_count = 0;
  column_count = 0;
  headers = [];
  preview_rows = [];
  warnings = empty_sheet msg ∷ [];
  classification = "Unknown";
  classification_confidence = 0;
  all_rows = [];
}

-- `headers.filter((_, i) => !colValues.get(i)?.size)`, as warnings.
abbrev pub empty_columns : List Text → List (List Text) → List SheetWarning
empty_columns [] columns = []
empty_columns (h ∷ hs) [] = empty_column h ∷ empty_columns hs []
empty_columns (h ∷ hs) ([] ∷ columns) = empty_column h ∷ empty_columns hs columns
empty_columns (h ∷ hs) ((v ∷ vs) ∷ columns) = empty_columns hs columns

abbrev duplicates : ℕ → List SheetWarning
duplicates n = if ltb 0 n then duplicate_rows n ∷ [] else []

-- The handler of `close`.
unfoldable pub on_close : Text → Reader → ParsedSheet
unfolding empty_result
on_close name s = elim s.headers [
  | [] ↦ empty_result name "CSV file has no headers."
  | ◌∷◌ h hs ↦ record {
    name = name;
    row_count = s.data_row_count;
    column_count = length s.headers;
    headers = s.headers;
    preview_rows = s.preview_rows;
    warnings = s.warnings ++ empty_columns s.headers s.col_values ++ duplicates s.dup_count;
    classification = "Unknown";
    classification_confidence = 0;
    all_rows = s.all_rows;
  }
]

-- Of a readable file of this size and these lines.
unfoldable pub parse_csv : Limits → Text → ℕ → List Text → ParsedSheet
parse_csv c name size lines =
    if size == 0
    then empty_result name "CSV file is empty."
    else on_close name (on_lines c lines new_reader)

abbrev IsCounted : Limits → ParsedSheet → Type 0
IsCounted c p =
    (p.preview_rows ≡ take c.preview_rows p.all_rows)
    × (length p.all_rows ≤ min c.max_rows_per_sheet p.row_count)
    × (p.row_count ≤ c.max_rows_per_sheet + 1)
    × (p.column_count ≡ length p.headers)

empty_result-IsCounted :
    (c : Limits) (name : Text) (msg : String) → IsCounted c (empty_result name msg)
unfolding empty_result
empty_result-IsCounted c name msg = (sym (take-nil c.preview_rows), omega arith, omega arith, refl)

on_close-IsCounted :
    (c : Limits) (name : Text) (lines : List Text)
    → IsCounted c (on_close name (on_lines c lines new_reader))
unfolding on_close
on_close-IsCounted c name lines = headed (on_lines c lines new_reader).headers
  where
    headed :
        (hs : List Text)
        → let s = on_lines c lines new_reader in
          IsCounted c (elim hs [
            | [] ↦ empty_result name "CSV file has no headers."
            | ◌∷◌ h hs ↦ record {
              name = name;
              row_count = s.data_row_count;
              column_count = length s.headers;
              headers = s.headers;
              preview_rows = s.preview_rows;
              warnings =
                  s.warnings ++ empty_columns s.headers s.col_values ++ duplicates s.dup_count;
              classification = "Unknown";
              classification_confidence = 0;
              all_rows = s.all_rows;
            }
          ])
    headed [] = empty_result-IsCounted c name "CSV file has no headers."
    headed (h ∷ hs) = let v = on_lines-counts c lines in (v.0, v.2, v.3, refl)

-- Whatever the file holds, the preview of the sheet is its first rows, the rows are at most as many
-- as the limit and as the count that is reported, and the count passes the limit by one at most.
pub parse_csv-IsCounted :
    (c : Limits) (name : Text) (size : ℕ) (lines : List Text)
    → IsCounted c (parse_csv c name size lines)
unfolding parse_csv
parse_csv-IsCounted c name size lines = elim (Bool-cases (size == 0)) [
  | inl e ↦ rw e (empty_result-IsCounted c name "CSV file is empty.")
  | inr e ↦ rw e (on_close-IsCounted c name lines)
]
