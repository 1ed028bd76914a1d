-- ===== src/Chunks/Parser.antt =====
-- apps/backend/src/imports/parsers/chunked-parser.ts: `parseCsvChunked` and `boundedRow`.
--
-- The records are those that csv-parse yields, whose values are texts; `cancelled n` is what
-- `isCancelled()` says at record `n`. The calls of `onChunk` and `onProgress` are kept in their
-- order.
use identity_access_graph.Prelude.{
  ℕ, suc, ◌+◌, ◌-◌, ◌/◌, Bool, true, false, List, [], ◌∷◌, ◌++◌, map, Result, ok, throw, ◌>>=◌,
  if◌then◌else◌, ltb, leb, take, length,
}
use identity_access_graph.Csv.Line.{Text, truncate_cell}

abbrev pub Record : Type 0
Record = List (Text × Text)

pub record ChunkLimits : Type 0 where
  pub chunk_size_rows : ℕ
  pub preview_rows : ℕ
  pub preview_columns : ℕ
  pub max_cell_length : ℕ
  pub max_rows_per_file : ℕ

-- `onChunk(0, chunkIndex, rowStart, rows)`, and the checkpoint of `onProgress`.
pub data Call : Type 0 where
  on_chunk : ℕ → ℕ → List Record → Call
  on_progress : ℕ → ℕ → Call

pub record Parsing : Type 0 where
  pub preview_rows : List Record
  pub is_truncated : Bool
  pub chunk : List Record
  pub headers : List Text
  pub row_count : ℕ
  pub chunk_index : ℕ
  pub calls : List Call

module _ (c : ChunkLimits) where
  unfoldable pub bounded_row : Record → Record
  bounded_row row =
      map (λ (e : Text × Text). (e.0, truncate_cell c.max_cell_length e.1))
        (take c.preview_columns row)

  abbrev pub begin : ℕ → Parsing
  begin resume_rows = record {
    preview_rows = [];
    is_truncated = false;
    chunk = [];
    headers = [];
    row_count = 0;
    chunk_index = resume_rows / c.chunk_size_rows;
    calls = [];
  }

  -- The body of the loop behind `continue`.
  abbrev pub keep_record : Record → Parsing → Parsing
  keep_record row s = record s {
    preview_rows =
        if ltb (length s.preview_rows) c.preview_rows
        then s.preview_rows ++ row ∷ []
        else s.preview_rows;
    chunk = s.chunk ++ row ∷ [];
  }

  abbrev pub handed : Parsing → Parsing
  handed s = record s {
    calls =
        s.calls
        ++ on_chunk s.chunk_index (s.row_count - length s.chunk + 1) s.chunk
          ∷ on_progress s.row_count (suc s.chunk_index)
          ∷ [];
    chunk = [];
    chunk_index = suc s.chunk_index;
  }

  abbrev pub hand_on : Parsing → Parsing
  hand_on s = if leb c.chunk_size_rows (length s.chunk) then handed s else s

  abbrev pub test_limit : Parsing → Parsing
  test_limit s = if leb c.max_rows_per_file s.row_count then record s { is_truncated = true } else s

  abbrev pub count_record : Record → Parsing → Parsing
  count_record raw s = record s {
    row_count = suc s.row_count;
    headers = elim s.headers [ [] ↦ map (λ (e : Text × Text). e.0) raw | ◌∷◌ h hs ↦ h ∷ hs ];
  }

  unfoldable pub on_record : ℕ → Record → Parsing → Parsing
  on_record resume_rows raw s =
      let s' = count_record raw s in
      if leb s'.row_count resume_rows
      then s'
      else test_limit (hand_on (keep_record (bounded_row raw) s'))

  -- `for await … break` leaves the loop.
  unfoldable pub on_records : (ℕ → Bool) → ℕ → List Record → Parsing → Result Parsing
  on_records cancelled resume_rows [] s = ok s
  on_records cancelled resume_rows (raw ∷ raws) s =
      let rest = on_records cancelled resume_rows raws (on_record resume_rows raw s) in
      if s.is_truncated
      then ok s
      else if cancelled (suc s.row_count)
      then throw "Import was cancelled."
      else rest

  -- Behind the loop: what is left of a chunk, these rows.
  abbrev pub last_rows : List Record → Parsing → Parsing
  last_rows [] s = s
  last_rows (row ∷ rows) s = record s {
    calls =
        s.calls ++ on_chunk s.chunk_index (s.row_count - length (row ∷ rows) + 1) (row ∷ rows) ∷ [];
  }

  abbrev pub last_chunk : Parsing → Parsing
  last_chunk s = last_rows s.chunk s

  unfoldable pub parse_csv_chunked : (ℕ → Bool) → ℕ → List Record → Result Parsing
  unfolding on_records
  parse_csv_chunked cancelled resume_rows raws =
      on_records cancelled resume_rows raws (begin resume_rows) >>= λ s. ok (last_chunk s)
