-- ===== src/Chunks/Branches.antt =====
-- Lemmas on tests and on numbers for the chunks of
-- apps/backend/src/imports/parsers/chunked-parser.ts.
use native.Mathlib.Nat.{mul-div_cancel, zero-div, zero-mul}
use identity_access_graph.Prelude.{
  ℕ, zero, suc, ◌+◌, ◌*◌, ◌/◌, ◌≤◌, ◌≡◌, sym, ap, Bool, true, false, if◌then◌else◌, leb, arith, ◌∙◌,
}
use identity_access_graph.Chunks.Parser.{Parsing}

abbrev pub never : ℕ → Bool
never n = false

pub past : (m n k : ℕ) → n ≤ k → leb (suc m) 0 ≡ leb (suc k) n
past m n k h = ground (arith, h)

pub rows_if :
    (b : Bool) (x y : Parsing) (n : ℕ)
    → x.row_count ≡ n
    → y.row_count ≡ n
    → (if b then x else y).row_count ≡ n
rows_if true x y n h k = h
rows_if false x y n h k = k

pub within : (a k n : ℕ) → a ≡ k → suc k ≤ n → leb (suc a) n ≡ true
within a k n e h = ground (arith, e, h)

pub not_before : (m : ℕ) → leb (suc m) 0 ≡ false
not_before m = ground arith

pub suc_mul : (a m : ℕ) → suc a * m ≡ m + a * m
suc_mul a zero = omega arith
suc_mul a (suc m) = omega (arith, suc_mul a m)

-- A checkpoint of whole chunks counts them.
pub whole : (n k m : ℕ) → 1 ≤ m → k * m ≡ n → k ≡ n / m
whole n k m z e = sym (mul-div_cancel k (omega (arith, z))) ∙ ap (λ x. x / m) e

pub no_chunk : (m : ℕ) → 0 + 0 / m * m ≡ 0
no_chunk m = omega (arith, ap (λ x. x * m) (zero-div m), zero-mul m)

pub add_none : (k : ℕ) → k ≡ k + 0
add_none k = omega arith

pub add_one : (k n : ℕ) → suc k + n ≡ k + suc n
add_one k n = omega arith
