-- ===== src/Chunks/Chunked.antt =====
-- The rows and chunks of a run of apps/backend/src/imports/parsers/chunked-parser.ts from the start.
use identity_access_graph.Prelude.{
  if_true, if_false, suc, ◌+◌, ◌*◌, ◌≤◌, ◌<◌, ◌≡◌, sym, ap, subst, false, List, [], ◌∷◌, ok, leb,
  leb→le, length, length-append, inl, inr, Bool-cases, arith, ◌∙◌,
}
use identity_access_graph.Chunks.Parser.{
  Record, ChunkLimits, Parsing, bounded_row, keep_record, hand_on, test_limit, count_record,
  on_record, on_records,
}
use identity_access_graph.Chunks.Branches.{never, not_before, suc_mul}
use identity_access_graph.Chunks.Ahead.{on_record-row_count}

module _ (c : ChunkLimits) where
  -- What the loop of a run from the first row keeps: a chunk is not full, and the chunks handed on
  -- and the one begun are the rows.
  pub record IsChunked (s : Parsing) : Type 0 where
    pub counted : length s.chunk + s.chunk_index * c.chunk_size_rows ≡ s.row_count
    pub short : length s.chunk < c.chunk_size_rows

  pub hand_on-IsChunked :
      (s : Parsing)
      → 1 ≤ c.chunk_size_rows
      → length s.chunk + s.chunk_index * c.chunk_size_rows ≡ s.row_count
      → length s.chunk ≤ c.chunk_size_rows
      → IsChunked (hand_on c s)
  hand_on-IsChunked s z h l = elim (Bool-cases (leb c.chunk_size_rows (length s.chunk))) [
    | inl e ↦
        subst IsChunked (sym (if_true (leb c.chunk_size_rows (length s.chunk)) _ _ e)) (record {
          counted = omega (arith, h, l, leb→le _ _ e, suc_mul s.chunk_index c.chunk_size_rows);
          short = omega (arith, z);
        })
    | inr e ↦
        subst IsChunked (sym (if_false (leb c.chunk_size_rows (length s.chunk)) _ _ e))
          (record { counted = h; short = ground (arith, e) })
  ]

  pub test_limit-IsChunked : (s : Parsing) → IsChunked s → IsChunked (test_limit c s)
  test_limit-IsChunked s v = elim (Bool-cases (leb c.max_rows_per_file s.row_count)) [
    | inl e ↦
        subst IsChunked (sym (if_true (leb c.max_rows_per_file s.row_count) _ _ e))
          (record { counted = v.counted; short = v.short })
    | inr e ↦ subst IsChunked (sym (if_false (leb c.max_rows_per_file s.row_count) _ _ e)) v
  ]

  pub on_record-IsChunked :
      (raw : Record) (s : Parsing)
      → 1 ≤ c.chunk_size_rows
      → IsChunked s
      → IsChunked (on_record c 0 raw s)
  unfolding on_record
  on_record-IsChunked raw s z v =
      let kept = keep_record c (bounded_row c raw) (count_record c raw s) in
      let l = length-append s.chunk (bounded_row c raw ∷ []) in
      subst IsChunked (sym (if_false (leb (suc s.row_count) 0) _ _ (not_before s.row_count))) (
        test_limit-IsChunked (hand_on c kept)
          (hand_on-IsChunked kept z (omega (arith, l, v.counted)) (omega (arith, l, v.short))))

  pub on_records-IsChunked :
      (raws : List Record) (b s : Parsing)
      → 1 ≤ c.chunk_size_rows
      → IsChunked b
      → on_records c never 0 raws b ≡ ok s
      → IsChunked s
  unfolding on_records
  on_records-IsChunked [] b s z v e = let p : b ≡ s = cc e in subst IsChunked p v
  on_records-IsChunked (raw ∷ raws) b s z v e = elim (Bool-cases b.is_truncated) [
    | inl i ↦
        let q : ok b ≡ ok s = sym (if_true b.is_truncated _ _ i) ∙ e in
        let p : b ≡ s = cc q in subst IsChunked p v
    | inr i ↦
        on_records-IsChunked raws (on_record c 0 raw b) s z (on_record-IsChunked raw b z v)
          (sym (if_false b.is_truncated _ _ i) ∙ e)
  ]

  pub on_records-row_count :
      (raws : List Record) (b s : Parsing)
      → on_records c never 0 raws b ≡ ok s
      → s.is_truncated ≡ false
      → s.row_count ≡ b.row_count + length raws
  unfolding on_records
  on_records-row_count [] b s e t = let p : b ≡ s = cc e in omega (arith, ap (λ x. x.row_count) p)
  on_records-row_count (raw ∷ raws) b s e t = elim (Bool-cases b.is_truncated) [
    | inl i ↦
        let q : ok b ≡ ok s = sym (if_true b.is_truncated _ _ i) ∙ e in
        let p : b ≡ s = cc q in cc (ap (λ x. x.is_truncated) p, i, t)
    | inr i ↦ omega (
      arith,
      on_records-row_count raws (on_record c 0 raw b) s (sym (if_false b.is_truncated _ _ i) ∙ e) t,
      on_record-row_count c 0 raw b,
    )
  ]
