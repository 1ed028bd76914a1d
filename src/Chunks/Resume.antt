-- ===== src/Chunks/Resume.antt =====
-- What a job that is resumed at a checkpoint hands on
-- (apps/backend/src/imports/parsers/chunked-parser.ts).
use identity_access_graph.Prelude.{
  ◌/◌, ◌≤◌, ◌≡◌, refl, sym, ap, false, List, [], ◌++◌, ok, ◌>>=◌, length, append-nil, arith, ◌∙◌,
}
use identity_access_graph.Chunks.Parser.{
  Record, ChunkLimits, Parsing, begin, on_records, last_chunk, parse_csv_chunked,
}
use identity_access_graph.Chunks.Branches.{never, whole, no_chunk}
use identity_access_graph.Chunks.Ahead.{IsAhead, on_records-IsAhead, last_chunk-IsAhead}
use identity_access_graph.Chunks.Passed.{on_records-append, on_records-IsPassed}
use identity_access_graph.Chunks.Chunked.{on_records-IsChunked, on_records-row_count}

module _ (c : ChunkLimits) where
  -- A job that is resumed at a checkpoint, which a run over the first records has reached with all
  -- of them handed on, hands on what a run without a break hands on behind it: the same rows in
  -- the same chunks, none twice and none left out. Neither run is cancelled, the limit of rows is
  -- not met before the checkpoint, and a chunk has at least one row.
  pub parse_csv_chunked-resumed :
      (xs ys : List Record) (s : Parsing)
      → 1 ≤ c.chunk_size_rows
      → on_records c never 0 xs (begin c 0) ≡ ok s
      → s.is_truncated ≡ false
      → s.chunk ≡ []
      → (f r : Parsing) × (parse_csv_chunked c never 0 (xs ++ ys) ≡ ok f)
        × (parse_csv_chunked c never s.row_count (xs ++ ys) ≡ ok r)
        × (f.calls ≡ s.calls ++ r.calls)
  unfolding parse_csv_chunked
  parse_csv_chunked-resumed xs ys s z e t h =
      let n = s.row_count in
      let v =
        on_records-IsChunked c xs (begin c 0) s z
          (record { counted = no_chunk c.chunk_size_rows; short = omega (arith, z) }) e in
      let len = on_records-row_count c xs (begin c 0) s e t in
      let (r, q, w) =
        on_records-IsPassed c n 0 (n / c.chunk_size_rows) xs ys (begin c n) (omega (arith, len))
          (record {
            calls = refl;
            chunk = refl;
            row_count = refl;
            chunk_index = refl;
            is_truncated = refl;
          }) in
      let ahead : IsAhead c s.calls s r = record {
        calls = sym (append-nil s.calls) ∙ ap (λ x. s.calls ++ x) (sym w.calls);
        chunk = h ∙ sym w.chunk;
        row_count = omega (arith, len, w.row_count);
        chunk_index =
            whole n s.chunk_index c.chunk_size_rows z (omega (arith, v.counted, ap length h))
            ∙ sym w.chunk_index;
        is_truncated = t ∙ sym w.is_truncated;
      } in
      let (f', r', p', q', a) =
        on_records-IsAhead c s.calls n ys s r (omega (arith, len, w.row_count)) ahead in
      (
        last_chunk c f',
        last_chunk c r',
        ap (λ m. m >>= λ x. ok (last_chunk c x))
            (on_records-append c 0 xs ys (begin c 0) s e t ∙ p'),
        ap (λ m. m >>= λ x. ok (last_chunk c x)) (q ∙ q'),
        last_chunk-IsAhead c s.calls f' r' a,
      )
