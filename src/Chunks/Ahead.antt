-- ===== src/Chunks/Ahead.antt =====
-- Two runs of apps/backend/src/imports/parsers/chunked-parser.ts at one record.
use identity_access_graph.Prelude.{
  if_true, if_false, ℕ, suc, ◌+◌, ◌-◌, ◌≤◌, ◌≡◌, refl, ap, Bool, true, false, List, [], ◌∷◌, ◌++◌,
  ok, if◌then◌else◌, leb, length, inl, inr, Bool-cases, append_assoc, arith, ◌∙◌,
}
use identity_access_graph.Chunks.Parser.{
  Record, ChunkLimits, Call, on_chunk, on_progress, Parsing, bounded_row, keep_record, hand_on,
  handed, last_rows, test_limit, count_record, on_record, on_records, last_chunk,
}
use identity_access_graph.Chunks.Branches.{never, past, rows_if}

module _ (c : ChunkLimits) where
  -- Two runs at one record, of which the second has not made the calls `pre`.
  pub record IsAhead (pre : List Call) (f r : Parsing) : Type 0 where
    pub calls : f.calls ≡ pre ++ r.calls
    pub chunk : f.chunk ≡ r.chunk
    pub row_count : f.row_count ≡ r.row_count
    pub chunk_index : f.chunk_index ≡ r.chunk_index
    pub is_truncated : f.is_truncated ≡ r.is_truncated

  pub keep_record-IsAhead :
      (pre : List Call) (row : Record) (f r : Parsing)
      → IsAhead pre f r
      → IsAhead pre (keep_record c row f) (keep_record c row r)
  keep_record-IsAhead pre row f r a = record {
    calls = a.calls;
    chunk = ap (λ x. x ++ row ∷ []) a.chunk;
    row_count = a.row_count;
    chunk_index = a.chunk_index;
    is_truncated = a.is_truncated;
  }

  pub handed-IsAhead :
      (pre : List Call) (f r : Parsing) → IsAhead pre f r → IsAhead pre (handed c f) (handed c r)
  handed-IsAhead pre f r a = record {
    calls = cc (
      a.calls,
      a.chunk,
      a.row_count,
      a.chunk_index,
      append_assoc pre r.calls (
          on_chunk r.chunk_index (r.row_count - length r.chunk + 1) r.chunk
          ∷ on_progress r.row_count (suc r.chunk_index)
          ∷ []),
    );
    chunk = refl;
    row_count = a.row_count;
    chunk_index = ap suc a.chunk_index;
    is_truncated = a.is_truncated;
  }

  -- A step that both runs take, or neither.
  pub both :
      (pre : List Call) (b d : Bool) (f f' r r' : Parsing)
      → b ≡ d
      → IsAhead pre f r
      → IsAhead pre f' r'
      → IsAhead pre (if b then f else f') (if d then r else r')
  both pre true true f f' r r' e a a' = a
  both pre true false f f' r r' e a a' = cc e
  both pre false true f f' r r' e a a' = cc e
  both pre false false f f' r r' e a a' = a'

  pub hand_on-IsAhead :
      (pre : List Call) (f r : Parsing) → IsAhead pre f r → IsAhead pre (hand_on c f) (hand_on c r)
  hand_on-IsAhead pre f r a =
      both pre _ _ _ _ _ _ (ap (λ x. leb c.chunk_size_rows (length x)) a.chunk)
        (handed-IsAhead pre f r a) a

  pub test_limit-IsAhead :
      (pre : List Call) (f r : Parsing)
      → IsAhead pre f r
      → IsAhead pre (test_limit c f) (test_limit c r)
  test_limit-IsAhead pre f r a =
      both pre _ _ _ _ _ _ (ap (leb c.max_rows_per_file) a.row_count)
        (record {
          calls = a.calls;
          chunk = a.chunk;
          row_count = a.row_count;
          chunk_index = a.chunk_index;
          is_truncated = refl;
        })
        a

  pub count_record-IsAhead :
      (pre : List Call) (raw : Record) (f r : Parsing)
      → IsAhead pre f r
      → IsAhead pre (count_record c raw f) (count_record c raw r)
  count_record-IsAhead pre raw f r a = record {
    calls = a.calls;
    chunk = a.chunk;
    row_count = ap suc a.row_count;
    chunk_index = a.chunk_index;
    is_truncated = a.is_truncated;
  }

  pub on_record-IsAhead :
      (pre : List Call) (n : ℕ) (raw : Record) (f r : Parsing)
      → n ≤ r.row_count
      → IsAhead pre f r
      → IsAhead pre (on_record c 0 raw f) (on_record c n raw r)
  unfolding on_record
  on_record-IsAhead pre n raw f r h a =
      both pre (leb (suc f.row_count) 0) (leb (suc r.row_count) n) _ _ _ _
        (past f.row_count n r.row_count h) (count_record-IsAhead pre raw f r a)
        (test_limit-IsAhead pre _ _ (
          hand_on-IsAhead pre _ _
            (keep_record-IsAhead pre (bounded_row c raw) _ _ (count_record-IsAhead pre raw f r a))))

  pub on_record-row_count :
      (n : ℕ) (raw : Record) (s : Parsing) → (on_record c n raw s).row_count ≡ suc s.row_count
  unfolding on_record
  on_record-row_count n raw s =
      let s' = count_record c raw s in
      let kept = keep_record c (bounded_row c raw) s' in
      let given =
        rows_if (leb c.chunk_size_rows (length kept.chunk)) (handed c kept) kept (suc s.row_count)
          refl refl in
      rows_if (leb (suc s.row_count) n) s' _ (suc s.row_count) refl (
        rows_if (leb c.max_rows_per_file (hand_on c kept).row_count) _ _ (suc s.row_count) given
          given)

  pub on_records-IsAhead :
      (pre : List Call) (n : ℕ) (raws : List Record) (f r : Parsing)
      → n ≤ r.row_count
      → IsAhead pre f r
      → (f' r' : Parsing) × (on_records c never 0 raws f ≡ ok f')
        × (on_records c never n raws r ≡ ok r')
        × IsAhead pre f' r'
  unfolding on_records
  on_records-IsAhead pre n [] f r h a = (f, r, refl, refl, a)
  on_records-IsAhead pre n (raw ∷ raws) f r h a = elim (Bool-cases r.is_truncated) [
    | inl e ↦
        (f, r, if_true f.is_truncated _ _ (a.is_truncated ∙ e), if_true r.is_truncated _ _ e, a)
    | inr e ↦
        let (f', r', p, q, a') =
          on_records-IsAhead pre n raws (on_record c 0 raw f) (on_record c n raw r)
            (omega (arith, on_record-row_count n raw r, h)) (on_record-IsAhead pre n raw f r h a) in
        (
          f',
          r',
          if_false f.is_truncated _ _ (a.is_truncated ∙ e) ∙ p,
          if_false r.is_truncated _ _ e ∙ q,
          a',
        )
  ]

  pub last_rows-IsAhead :
      (pre : List Call) (rows : List Record) (f r : Parsing)
      → IsAhead pre f r
      → (last_rows c rows f).calls ≡ pre ++ (last_rows c rows r).calls
  last_rows-IsAhead pre [] f r a = a.calls
  last_rows-IsAhead pre (row ∷ rows) f r a = cc (
    a.calls,
    a.row_count,
    a.chunk_index,
    append_assoc pre r.calls
        (on_chunk r.chunk_index (r.row_count - length (row ∷ rows) + 1) (row ∷ rows) ∷ []),
  )

  pub last_chunk-IsAhead :
      (pre : List Call) (f r : Parsing)
      → IsAhead pre f r
      → (last_chunk c f).calls ≡ pre ++ (last_chunk c r).calls
  last_chunk-IsAhead pre f r a =
      ap (λ x. (last_rows c x f).calls) a.chunk ∙ last_rows-IsAhead pre r.chunk f r a
