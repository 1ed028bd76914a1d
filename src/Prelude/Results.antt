-- ===== src/Prelude/Results.antt =====
-- A call that may throw: its value, or the message of the error.
use Prim.Native.String.{String}
use mathlib.Core.Path.{◌≡◌, sym, subst}
use mathlib.Core.Bool.{Bool, true, false}
use identity_access_graph.Prelude.Tests.{if◌then◌else◌}

pub data Result {ℓ} (A : Type ℓ) : Type ℓ where
  throw : String → Result A
  ok : A → Result A

infixl 5 ◌>>=◌
abbrev pub ◌>>=◌ {μ ν} : {X : Type μ} {Y : Type ν} → Result X → (X → Result Y) → Result Y
throw message >>= k = throw message
ok x >>= k = k x

-- A call that returns a value.
abbrev pub Returns {ℓ} : {A : Type ℓ} → Result A → Type ℓ
Returns {A} m = (a : A) × (m ≡ ok a)

pub >>=-Returns {ℓ κ} :
    {A : Type ℓ} {B : Type κ} (m : Result A) (f : A → Result B) (h : Returns m)
    → Returns (f h.0)
    → Returns (m >>= f)
>>=-Returns m f (a, e) (b, k) = (b, subst (λ x. (x >>= f) ≡ ok b) (sym e) k)

pub if-Returns {ℓ} :
    {A : Type ℓ} (c : Bool) (m n : Result A) → Returns m → Returns n → Returns (if c then m else n)
if-Returns true m n p q = p
if-Returns false m n p q = q
