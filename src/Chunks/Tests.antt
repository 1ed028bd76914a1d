-- ===== src/Chunks/Tests.antt =====
-- The theorem on resumed parsing at a concrete file.
use identity_access_graph.Prelude.{ℕ, ◌≡◌, refl, false, [], ◌∷◌, ◌++◌, ok, arith}
use identity_access_graph.Chunks.Parser.{
  Record, ChunkLimits, on_chunk, on_progress, Parsing, bounded_row, on_record, on_records,
  parse_csv_chunked,
}
use identity_access_graph.Csv.Line.{truncate_cell}
use identity_access_graph.Chunks.Branches.{never}
use identity_access_graph.Chunks.Resume.{parse_csv_chunked-resumed}

abbrev limits : ChunkLimits
limits = record {
  chunk_size_rows = 2;
  preview_rows = 1;
  preview_columns = 3;
  max_cell_length = 4;
  max_rows_per_file = 100;
}

-- One column, `a`.
abbrev a_record : ℕ → Record
a_record n = ((0x61 ∷ []), (n ∷ [])) ∷ []

abbrev at_checkpoint : Parsing
at_checkpoint = record {
  preview_rows = a_record 49 ∷ [];
  is_truncated = false;
  chunk = [];
  headers = (0x61 ∷ []) ∷ [];
  row_count = 2;
  chunk_index = 1;
  calls = on_chunk 0 1 (a_record 49 ∷ a_record 50 ∷ []) ∷ on_progress 2 1 ∷ [];
}

parse_csv_chunked-resumed_example :
    (f r : Parsing) × (parse_csv_chunked limits never 0
        (a_record 49 ∷ a_record 50 ∷ a_record 51 ∷ [])
      ≡ ok f)
    × (parse_csv_chunked limits never 2 (a_record 49 ∷ a_record 50 ∷ a_record 51 ∷ []) ≡ ok r)
    × (f.calls ≡ at_checkpoint.calls ++ r.calls)
unfolding on_records on_record bounded_row truncate_cell
parse_csv_chunked-resumed_example =
    parse_csv_chunked-resumed limits (a_record 49 ∷ a_record 50 ∷ []) (a_record 51 ∷ [])
      at_checkpoint (omega arith) refl refl refl
