-- ===== src/Prelude/Decimal.antt =====
-- A number in a template literal: its decimal digits.
use Prim.Native.Nat.{ℕ, zero, suc, ◌/◌, ◌%◌}
use Prim.Native.String.{String}
use Prim.Native.String
use mathlib.Core.List.{List, [], ◌∷◌}
use identity_access_graph.Prelude.Tests.{if◌then◌else◌, ltb}
use identity_access_graph.Prelude.Lists.{get_elem?}
use mathlib.Core.Option.{none, some}

infixl 65 ◌+s◌
abbrev pub ◌+s◌ : String → String → String
s +s t = String.◌++◌ s t

abbrev digit_names : List String
digit_names = "0" ∷ "1" ∷ "2" ∷ "3" ∷ "4" ∷ "5" ∷ "6" ∷ "7" ∷ "8" ∷ "9" ∷ []

digit : ℕ → String
digit n = elim (get_elem? digit_names n) [ none ↦ "" | some s ↦ s ]

-- A number below `2 ^ f` has at most `f` digits.
digits_from : ℕ → ℕ → String → String
unfolding digit
digits_from zero n acc = acc
digits_from (suc f) n acc =
    let here = digit (n % 10) +s acc in
    let rest = digits_from f (n / 10) here in if ltb n 10 then here else rest

unfoldable pub decimal : ℕ → String
unfolding digits_from
decimal n = digits_from (suc n) n ""
