-- ===== src/Csv/RoundTrip.antt =====
-- What apps/backend/src/imports/parsers/csv-parser.ts reads of quoted fields (RFC 4180).
use identity_access_graph.Prelude.{
  ℕ, ◌≡◌, refl, sym, ap, true, false, List, [], ◌∷◌, ◌++◌, map, Option, some, inl, inr, ◌==◌,
  nat_eq, if◌then◌else◌, Bool-cases, head?, append-nil, append_assoc, ◌∙◌,
}
use identity_access_graph.Csv.Line.{
  Text, quote, comma, trim, Scan, scan_unit, scan_line, parse_csv_line,
}

-- A field with its quotes doubled.
abbrev pub doubled : Text → Text
doubled [] = []
doubled (c ∷ cs) = let rest = doubled cs in if c == quote then quote ∷ quote ∷ rest else c ∷ rest

abbrev pub quoted : Text → Text
quoted t = quote ∷ doubled t ++ quote ∷ []

-- A line of at least one field.
abbrev pub print_line : Text → List Text → Text
print_line t [] = quoted t
print_line t (u ∷ us) = quoted t ++ comma ∷ print_line u us

abbrev at_start : List Text → Scan
at_start rs = record { result = rs; current = []; in_quotes = false; skip = false }

abbrev inside : List Text → Text → Scan
inside rs t = record { result = rs; current = t; in_quotes = true; skip = false }

abbrev behind : List Text → Text → Scan
behind rs t = record { result = rs; current = t; in_quotes = false; skip = false }

abbrev IsClosed : Text → Type 0
IsClosed [] = Unit
IsClosed (c ∷ cs) = (c == quote) ≡ false

closing :
    (c : ℕ) (rs : List Text) (before : Text)
    → (c == quote) ≡ false
    → scan_unit quote (some c) (inside rs before) ≡ behind rs before
closing c rs before h = rw h refl

inside-unit :
    (c : ℕ) (next : Option ℕ) (rs : List Text) (before : Text)
    → (c == quote) ≡ false
    → scan_unit c next (inside rs before) ≡ inside rs (before ++ c ∷ [])
inside-unit c next rs before h = elim (Bool-cases (c == comma)) [
  | inl e ↦ rw (h, e) refl
  | inr e ↦ rw (h, e) refl
]

-- The units of a field, up to the quote that ends it.
scan_line-doubled :
    (t rest : Text) (rs : List Text) (before : Text)
    → IsClosed rest
    → scan_line (doubled t ++ quote ∷ rest) (inside rs before)
      ≡ scan_line rest (behind rs (before ++ t))
scan_line-doubled [] [] rs before h = ap (behind rs) (sym (append-nil before))
scan_line-doubled [] (c ∷ cs) rs before h =
    ap (scan_line (c ∷ cs)) (closing c rs before h ∙ ap (behind rs) (sym (append-nil before)))
scan_line-doubled (c ∷ cs) rest rs before h = elim (Bool-cases (c == quote)) [
  | inl e ↦ rw e (
      scan_line-doubled cs rest rs (before ++ quote ∷ []) h
      ∙ ap (λ x. scan_line rest (behind rs x))
          (append_assoc before (quote ∷ []) cs
            ∙ ap (λ y. before ++ y ∷ cs) (sym ((nat_eq.test_iff c quote).0 e))))
  | inr e ↦ rw e (
      ap (scan_line (doubled cs ++ quote ∷ rest))
        (inside-unit c (head? (doubled cs ++ quote ∷ rest)) rs before e)
      ∙ scan_line-doubled cs rest rs (before ++ c ∷ []) h
      ∙ ap (λ x. scan_line rest (behind rs x)) (append_assoc before (c ∷ []) cs))
]

abbrev finished : Scan → List Text
finished s = s.result ++ trim s.current ∷ []

scan_line-print_line :
    (t : Text) (us rs : List Text)
    → finished (scan_line (print_line t us) (at_start rs)) ≡ rs ++ map trim (t ∷ us)
scan_line-print_line t [] rs = ap finished (scan_line-doubled t [] rs [] tt)
scan_line-print_line t (u ∷ us) rs =
    let later = comma ∷ print_line u us in
    ap (λ x. finished (scan_line x (inside rs []))) (append_assoc (doubled t) (quote ∷ []) later)
    ∙ ap finished (scan_line-doubled t later rs [] refl)
    ∙ scan_line-print_line u us (rs ++ trim t ∷ [])
    ∙ append_assoc rs (trim t ∷ []) (map trim (u ∷ us))

-- A line of quoted fields is read as these fields, each trimmed: what is quoted, commas and quotes
-- included, is neither split nor lost.
pub parse_csv_line-print_line :
    (t : Text) (us : List Text) → parse_csv_line (print_line t us) ≡ map trim (t ∷ us)
unfolding parse_csv_line
parse_csv_line-print_line t us = scan_line-print_line t us []
