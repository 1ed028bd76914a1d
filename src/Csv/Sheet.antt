-- ===== src/Csv/Sheet.antt =====
-- apps/backend/src/imports/parsers/csv-parser.ts: `parseCsv`, the handlers of `line` and `close`.
--
-- The lines are those that node:readline hands on. A row is the list of its entries in the order in
-- which they were first written. Of a warning the numbers and the column are kept, not the wording.
use identity_access_graph.Prelude.{
  ℕ, suc, ◌≡◌, ◌↔◌, String, Bool, true, false, ◌&&◌, List, [], ◌∷◌, ◌++◌, map, Option, none, some,
  Equality, ◌==◌, nat_eq, if◌then◌else◌, ltb, includes, length, head?, drop, arith,
}
use identity_access_graph.Csv.Line.{Text, trim, parse_csv_line, truncate_cell}

abbrev pub text_beq : Text → Text → Bool
text_beq [] [] = true
text_beq (c ∷ cs) (d ∷ ds) = c == d && text_beq cs ds
text_beq _ _ = false

pub text_beq_iff : (s t : Text) → (text_beq s t ≡ true) ↔ (s ≡ t)
text_beq_iff [] [] = ground arith
text_beq_iff [] (d ∷ ds) = ground arith
text_beq_iff (c ∷ cs) [] = ground arith
text_beq_iff (c ∷ cs) (d ∷ ds) = ground (arith, text_beq_iff cs ds)

instance abbrev pub text_eq : Equality Text
text_eq = record { test = text_beq; test_iff = text_beq_iff }

-- A cell is a text, or `null`.
abbrev pub Row : Type 0
Row = List (Text × Option Text)

abbrev pub write_cell : Text → Option Text → Row → Row
write_cell h v [] = (h, v) ∷ []
write_cell h v ((k, w) ∷ row) =
    let rest = write_cell h v row in if k == h then (h, v) ∷ row else (k, w) ∷ rest

abbrev pub read_cell : Text → Row → Option Text
read_cell h [] = none
read_cell h ((k, w) ∷ row) = let rest = read_cell h row in if k == h then w else rest

pub data SheetWarning : Type 0 where
  truncated : ℕ → SheetWarning
  empty_column : Text → SheetWarning
  duplicate_rows : ℕ → SheetWarning
  empty_sheet : String → SheetWarning

pub record Limits : Type 0 where
  pub max_rows_per_sheet : ℕ
  pub preview_rows : ℕ
  pub max_cell_length : ℕ

pub record Reader : Type 0 where
  pub headers : List Text
  pub all_rows : List Row
  pub preview_rows : List Row
  pub warnings : List SheetWarning
  pub line_count : ℕ
  pub data_row_count : ℕ
  pub is_truncated : Bool
  pub seen : List Text
  pub dup_count : ℕ
  -- by the number of the column
  pub col_values : List (List Text)

abbrev pub new_reader : Reader
new_reader = record {
  headers = [];
  all_rows = [];
  preview_rows = [];
  warnings = [];
  line_count = 0;
  data_row_count = 0;
  is_truncated = false;
  seen = [];
  dup_count = 0;
  col_values = [];
}

abbrev pub add_text : Text → List Text → List Text
add_text t ts = if includes ts t then ts else ts ++ t ∷ []

-- What the loop over the headers has made: the row, whether all of it is empty, the columns.
pub record Filling : Type 0 where
  pub row : Row
  pub all_empty : Bool
  pub columns : List (List Text)

abbrev is_blank : Option Text → Bool
is_blank none = true
is_blank (some v) = trim v == []

abbrev add_value : Option Text → List Text → List Text
add_value none column = column
add_value (some v) column = if trim v == [] then column else add_text v column

abbrev cell : ℕ → Option Text → Option Text
cell limit none = none
cell limit (some v) = some (truncate_cell limit v)

-- The columns behind a header, and the first of them.
abbrev column_here : List (List Text) → List Text
column_here [] = []
column_here (column ∷ columns) = column

abbrev pub fill_row : ℕ → List Text → List Text → List (List Text) → Row → Bool → Filling
fill_row limit [] values columns row empty = record { row = row; all_empty = empty; columns = [] }
fill_row limit (h ∷ hs) values columns row empty =
    let v = cell limit (head? values) in
    let rest =
      fill_row limit hs (drop 1 values) (drop 1 columns) (write_cell h v row)
        (empty && is_blank v) in
    record rest { columns = add_value v (column_here columns) ∷ rest.columns }

abbrev text_of : Option Text → Text
text_of none = []
text_of (some v) = v

abbrev pub row_key : List Text → Row → Text
row_key [] row = []
row_key (h ∷ []) row = text_of (read_cell h row)
row_key (h ∷ k ∷ hs) row = text_of (read_cell h row) ++ 0x7c ∷ row_key (k ∷ hs) row

module _ (c : Limits) where
  -- Behind the test for an empty row.
  abbrev pub store_row : Row → Reader → Reader
  store_row row s =
      let key = row_key s.headers row in
      let counted =
        if includes s.seen key
        then record s { dup_count = suc s.dup_count }
        else record s { seen = s.seen ++ key ∷ [] } in
      record counted {
        all_rows = s.all_rows ++ row ∷ [];
        preview_rows =
            if ltb (length s.preview_rows) c.preview_rows
            then s.preview_rows ++ row ∷ []
            else s.preview_rows;
      }

  abbrev pub keep_row : Filling → Reader → Reader
  keep_row f s =
      let s' = record s { col_values = f.columns } in if f.all_empty then s' else store_row f.row s'

  abbrev pub data_line : List Text → Reader → Reader
  data_line values s =
      let n = suc s.data_row_count in
      if ltb c.max_rows_per_sheet n
      then record s {
        data_row_count = n;
        is_truncated = true;
        warnings = s.warnings ++ truncated c.max_rows_per_sheet ∷ [];
      }
      else keep_row (fill_row c.max_cell_length s.headers values s.col_values [] true)
          (record s { data_row_count = n })

  abbrev pub header_or_data : List Text → Reader → Reader
  header_or_data values s = elim s.headers [
    | [] ↦ record s { headers = values; col_values = map (λ h. []) values }
    | ◌∷◌ h hs ↦ data_line values s
  ]

  unfoldable pub on_line : Text → Reader → Reader
  on_line line s =
      if s.is_truncated
      then s
      else if trim line == []
      then record s { line_count = suc s.line_count }
      else header_or_data (parse_csv_line line) (record s { line_count = suc s.line_count })

  abbrev pub on_lines : List Text → Reader → Reader
  on_lines [] s = s
  on_lines (line ∷ lines) s = on_lines lines (on_line line s)
