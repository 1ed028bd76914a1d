-- ===== src/Csv/Counts.antt =====
-- What the counts, the rows and the preview of a parsed sheet have to do with each other
-- (apps/backend/src/imports/parsers/csv-parser.ts).
use identity_access_graph.Prelude.{
  if_true, if_false, take-nil, ℕ, zero, suc, ◌+◌, ◌≤◌, ◌<◌, ◌≡◌, refl, sym, ap, subst, map, min,
  true, false, List, [], ◌∷◌, ◌++◌, inl, inr, ◌==◌, Bool-cases, if◌then◌else◌, ltb, lt→ltb,
  includes, take, length, length-append, arith, ◌∙◌,
}
use identity_access_graph.Csv.Line.{Text, trim, parse_csv_line}
use identity_access_graph.Csv.Sheet.{
  text_eq, Row, Limits, Reader, new_reader, Filling, row_key, fill_row, store_row, keep_row,
  data_line, header_or_data, on_line, on_lines,
}

ltb-suc : (a b : ℕ) → ltb (suc a) (suc b) ≡ ltb a b
ltb-suc a b = ground arith

-- A list of the first `n` elements is kept up by adding while it is short.
take-concat {ℓ} :
    {A : Type ℓ} (n : ℕ) (xs : List A) (x : A)
    → (if ltb (length (take n xs)) n then take n xs ++ x ∷ [] else take n xs)
      ≡ take n (xs ++ x ∷ [])
take-concat zero xs x = refl
take-concat (suc n) [] x = rw (lt→ltb 0 (suc n) (omega arith)) (ap (◌∷◌ x) (sym (take-nil n)))
take-concat (suc n) (y ∷ xs) x = elim (Bool-cases (ltb (length (take n xs)) n)) [
  | inl e ↦
      rw (ltb-suc (length (take n xs)) n, e)
        (ap (◌∷◌ y) (sym (if_true _ _ _ e) ∙ take-concat n xs x))
  | inr e ↦
      rw (ltb-suc (length (take n xs)) n, e)
        (ap (◌∷◌ y) (sym (if_false _ _ _ e) ∙ take-concat n xs x))
]

module _ (c : Limits) where
  pub record Counts (s : Reader) : Type 0 where
    pub preview : s.preview_rows ≡ take c.preview_rows s.all_rows
    pub distinct : length s.seen + s.dup_count ≡ length s.all_rows
    pub rows : length s.all_rows ≤ s.data_row_count
    pub kept : length s.all_rows ≤ c.max_rows_per_sheet
    pub limit : s.data_row_count ≤ c.max_rows_per_sheet + 1
    pub going : s.is_truncated ≡ false → s.data_row_count ≤ c.max_rows_per_sheet

  store_row-Counts :
      (row : Row) (s : Reader)
      → s.preview_rows ≡ take c.preview_rows s.all_rows
      → length s.seen + s.dup_count ≡ length s.all_rows
      → length s.all_rows < s.data_row_count
      → s.data_row_count ≤ c.max_rows_per_sheet
      → Counts (store_row c row s)
  store_row-Counts row s p d r m = elim (Bool-cases (includes s.seen (row_key s.headers row))) [
    | inl e ↦ rw e (record {
      preview = previewed row s p;
      distinct = omega (arith, length-append s.all_rows (row ∷ []), d);
      rows = omega (arith, length-append s.all_rows (row ∷ []), r);
      kept = omega (arith, length-append s.all_rows (row ∷ []), r, m);
      limit = omega (arith, m);
      going = λ t. m;
    })
    | inr e ↦ rw e (record {
      preview = previewed row s p;
      distinct = omega (
        arith,
        length-append s.all_rows (row ∷ []),
        length-append s.seen (row_key s.headers row ∷ []),
        d,
      );
      rows = omega (arith, length-append s.all_rows (row ∷ []), r);
      kept = omega (arith, length-append s.all_rows (row ∷ []), r, m);
      limit = omega (arith, m);
      going = λ t. m;
    })
  ]
    where
      previewed :
          (row : Row) (s : Reader)
          → s.preview_rows ≡ take c.preview_rows s.all_rows
          → (if ltb (length s.preview_rows) c.preview_rows
              then s.preview_rows ++ row ∷ []
              else s.preview_rows)
            ≡ take c.preview_rows (s.all_rows ++ row ∷ [])
      previewed row s p = rw p (take-concat c.preview_rows s.all_rows row)

  keep_row-Counts :
      (f : Filling) (s : Reader)
      → s.preview_rows ≡ take c.preview_rows s.all_rows
      → length s.seen + s.dup_count ≡ length s.all_rows
      → length s.all_rows < s.data_row_count
      → s.data_row_count ≤ c.max_rows_per_sheet
      → Counts (keep_row c f s)
  keep_row-Counts f s p d r m = elim (Bool-cases f.all_empty) [
    | inl e ↦ rw e (record {
      preview = p;
      distinct = d;
      rows = omega (arith, r);
      kept = omega (arith, r, m);
      limit = omega (arith, m);
      going = λ t. m;
    })
    | inr e ↦ rw e (store_row-Counts f.row (record s { col_values = f.columns }) p d r m)
  ]

  data_line-Counts :
      (values : List Text) (s : Reader)
      → s.is_truncated ≡ false
      → Counts s
      → Counts (data_line c values s)
  data_line-Counts values s t v =
      elim (Bool-cases (ltb c.max_rows_per_sheet (suc s.data_row_count))) [
        | inl e ↦ rw e (record {
          preview = v.preview;
          distinct = v.distinct;
          rows = omega (arith, v.rows);
          kept = v.kept;
          limit = omega (arith, v.going t);
          going = λ t. cc t;
        })
        | inr e ↦ rw e (
            keep_row-Counts (fill_row c.max_cell_length s.headers values s.col_values [] true)
              (record s { data_row_count = suc s.data_row_count }) v.preview v.distinct
              (omega (arith, v.rows)) (ground (arith, e)))
      ]

  header_or_data-Counts :
      (values : List Text) (s : Reader)
      → s.is_truncated ≡ false
      → Counts s
      → Counts (header_or_data c values s)
  header_or_data-Counts values s t v = headed s.headers
    where
      headed :
          (hs : List Text)
          → Counts (elim hs [
            | [] ↦ record s { headers = values; col_values = map (λ h. []) values }
            | ◌∷◌ h hs ↦ data_line c values s
          ])
      headed [] = record {
        preview = v.preview;
        distinct = v.distinct;
        rows = v.rows;
        kept = v.kept;
        limit = v.limit;
        going = v.going;
      }
      headed (h ∷ hs) = data_line-Counts values s t v

  on_line-Counts : (line : Text) (s : Reader) → Counts s → Counts (on_line c line s)
  unfolding on_line
  on_line-Counts line s v = elim (Bool-cases s.is_truncated) [
    | inl t ↦ subst Counts (sym (if_true s.is_truncated _ _ t)) v
    | inr t ↦
        subst Counts (sym (if_false s.is_truncated _ _ t)) (elim (Bool-cases (trim line == [])) [
          | inl e ↦ rw e counted
          | inr e ↦ rw e (header_or_data-Counts (parse_csv_line line) _ t counted)
        ])
  ]
    where
      counted : Counts (record s { line_count = suc s.line_count })
      counted = record {
        preview = v.preview;
        distinct = v.distinct;
        rows = v.rows;
        kept = v.kept;
        limit = v.limit;
        going = v.going;
      }

  on_lines-Counts : (lines : List Text) (s : Reader) → Counts s → Counts (on_lines c lines s)
  on_lines-Counts [] s v = v
  on_lines-Counts (line ∷ lines) s v =
      on_lines-Counts lines (on_line c line s) (on_line-Counts line s v)

  new_reader-Counts : Counts new_reader
  new_reader-Counts = record {
    preview = sym (take-nil c.preview_rows);
    distinct = omega arith;
    rows = omega arith;
    kept = omega arith;
    limit = omega arith;
    going = λ t. omega arith;
  }

  -- Rows, counts and preview behind any lines.
  pub on_lines-counts :
      (lines : List Text)
      → let s = on_lines c lines new_reader in
        (s.preview_rows ≡ take c.preview_rows s.all_rows)
        × (length s.seen + s.dup_count ≡ length s.all_rows)
        × (length s.all_rows ≤ min c.max_rows_per_sheet s.data_row_count)
        × (s.data_row_count ≤ c.max_rows_per_sheet + 1)
  on_lines-counts lines =
      let v = on_lines-Counts lines new_reader new_reader-Counts in
      (v.preview, v.distinct, omega (arith, v.kept, v.rows), v.limit)
