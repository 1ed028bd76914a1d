-- ===== src/Chunks/Passed.antt =====
-- What a run of apps/backend/src/imports/parsers/chunked-parser.ts passes over.
use identity_access_graph.Prelude.{
  if_true, if_false, ℕ, suc, ◌+◌, ◌≤◌, ◌≡◌, refl, sym, ap, subst, false, List, [], ◌∷◌, ◌++◌, ok,
  leb, length, inl, inr, Bool-cases, arith, ◌∙◌,
}
use identity_access_graph.Chunks.Parser.{Record, ChunkLimits, Parsing, on_record, on_records}
use identity_access_graph.Chunks.Branches.{never, within, add_none, add_one}

module _ (c : ChunkLimits) where
  -- A run over `xs` that is not truncated goes on with what is behind them.
  pub on_records-append :
      (n : ℕ) (xs ys : List Record) (b s : Parsing)
      → on_records c never n xs b ≡ ok s
      → s.is_truncated ≡ false
      → on_records c never n (xs ++ ys) b ≡ on_records c never n ys s
  unfolding on_records
  on_records-append n [] ys b s e t = let p : b ≡ s = cc e in ap (on_records c never n ys) p
  on_records-append n (raw ∷ xs) ys b s e t = elim (Bool-cases b.is_truncated) [
    | inl i ↦
        let q : ok b ≡ ok s = sym (if_true b.is_truncated _ _ i) ∙ e in
        let p : b ≡ s = cc q in cc (ap (λ x. x.is_truncated) p, i, t)
    | inr i ↦
        if_false b.is_truncated _ _ i
        ∙ on_records-append n xs ys (on_record c n raw b) s
            (sym (if_false b.is_truncated _ _ i) ∙ e) t
  ]

  -- The rows of the checkpoint are passed over.
  pub record IsPassed (k m : ℕ) (r : Parsing) : Type 0 where
    pub calls : r.calls ≡ []
    pub chunk : r.chunk ≡ []
    pub row_count : r.row_count ≡ k
    pub chunk_index : r.chunk_index ≡ m
    pub is_truncated : r.is_truncated ≡ false

  pub on_record-IsPassed :
      (n k m : ℕ) (raw : Record) (r : Parsing)
      → suc k ≤ n
      → IsPassed k m r
      → IsPassed (suc k) m (on_record c n raw r)
  unfolding on_record
  on_record-IsPassed n k m raw r h v =
      subst (IsPassed (suc k) m)
        (sym (if_true (leb (suc r.row_count) n) _ _ (within r.row_count k n v.row_count h)))
        (record {
          calls = v.calls;
          chunk = v.chunk;
          row_count = ap suc v.row_count;
          chunk_index = v.chunk_index;
          is_truncated = v.is_truncated;
        })

  pub on_records-IsPassed :
      (n k m : ℕ) (xs ys : List Record) (b : Parsing)
      → k + length xs ≤ n
      → IsPassed k m b
      → (r : Parsing) × (on_records c never n (xs ++ ys) b ≡ on_records c never n ys r)
        × IsPassed (k + length xs) m r
  unfolding on_records
  on_records-IsPassed n k m [] ys b h v = (b, refl, subst (λ x. IsPassed x m b) (add_none k) v)
  on_records-IsPassed n k m (raw ∷ xs) ys b h v =
      let (r, e, w) =
        on_records-IsPassed n (suc k) m xs ys (on_record c n raw b) (omega (arith, h))
          (on_record-IsPassed n k m raw b (omega (arith, h)) v) in
      (
        r,
        if_false b.is_truncated _ _ v.is_truncated ∙ e,
        subst (λ x. IsPassed x m r) (add_one k (length xs)) w,
      )
