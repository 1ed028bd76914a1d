-- ===== src/Csv/Tests.antt =====
-- The theorems on CSV files at concrete lines.
use identity_access_graph.Prelude.{◌≤◌, min, ◌≡◌, List, [], ◌∷◌, take, length}
use identity_access_graph.Csv.Line.{Text, trim, is_space, parse_csv_line}
use identity_access_graph.Csv.RoundTrip.{print_line, parse_csv_line-print_line}
use identity_access_graph.Csv.Sheet.{Limits}
use identity_access_graph.Csv.Parsed.{parse_csv, parse_csv-IsCounted}

-- `a,"b` and a space with `c`.
parse_csv_line-print_line_example :
    parse_csv_line (print_line (0x61 ∷ 0x2c ∷ 0x22 ∷ 0x62 ∷ []) ((0x20 ∷ 0x63 ∷ []) ∷ []))
    ≡ (0x61 ∷ 0x2c ∷ 0x22 ∷ 0x62 ∷ []) ∷ (0x63 ∷ []) ∷ []
unfolding trim is_space
parse_csv_line-print_line_example =
    parse_csv_line-print_line (0x61 ∷ 0x2c ∷ 0x22 ∷ 0x62 ∷ []) ((0x20 ∷ 0x63 ∷ []) ∷ [])

abbrev limits : Limits
limits = record { max_rows_per_sheet = 2; preview_rows = 1; max_cell_length = 3 }

-- A header `a,b`, and three rows, the second as the first.
abbrev four_lines : List Text
four_lines =
    (0x61 ∷ 0x2c ∷ 0x62 ∷ [])
    ∷ (0x31 ∷ 0x2c ∷ 0x32 ∷ [])
    ∷ (0x31 ∷ 0x2c ∷ 0x32 ∷ [])
    ∷ (0x33 ∷ 0x2c ∷ 0x34 ∷ [])
    ∷ []

parse_csv-IsCounted_example :
    let p = parse_csv limits (0x78 ∷ []) 16 four_lines in
    (p.preview_rows ≡ take 1 p.all_rows)
    × (length p.all_rows ≤ min 2 p.row_count)
    × (p.row_count ≤ 3)
    × (p.column_count ≡ length p.headers)
parse_csv-IsCounted_example = parse_csv-IsCounted limits (0x78 ∷ []) 16 four_lines
