-- ===== src/Prelude/Json.antt =====
-- The values of the source's `unknown`: what JSON carries, and `undefined`. Numbers are the whole
-- non-negative ones, and `hundredths n`, which stands for n / 100 where that is not whole. A `Record<string, unknown>` is its list of entries in insertion order.
use Prim.Native.Nat.{ℕ}
use Prim.Native.String.{String}
use mathlib.Core.Bool.{Bool, true, false, not}
use mathlib.Core.List.{List, [], ◌∷◌}
use identity_access_graph.Prelude.Tests.{if◌then◌else◌, ◌==◌, nat_eq, string_eq, ==_refl}
use mathlib.Core.Path.{◌≡◌}
use native.Mathlib.Omega.{arith}

mutual
  pub data Value : Type 0 where
    undefined null : Value
    bool : Bool → Value
    num : ℕ → Value
    hundredths : ℕ → Value
    str : String → Value
    arr : Items → Value
    obj : Object → Value

  pub data Items : Type 0 where
    nil : Items
    cons : Value → Items → Items

  pub data Object : Type 0 where
    end : Object
    field : String → Value → Object → Object

abbrev pub items : List Value → Items
items [] = nil
items (v ∷ vs) = cons v (items vs)

-- `o[key]`; a missing key reads `undefined`.
abbrev pub get : Object → String → Value
get end key = undefined
get (field k v o) key = if k == key then v else get o key

-- `o[key] = value`, and `{ ...o, [key]: value }`: an old key keeps its place.
abbrev pub set : Object → String → Value → Object
set end key value = field key value end
set (field k v o) key value =
    let rest = set o key value in if k == key then field k value o else field k v rest

abbrev pub truthy : Value → Bool
truthy undefined = false
truthy null = false
truthy (bool b) = b
truthy (num n) = not (n == 0)
truthy (str s) = not (s == "")
truthy _ = true

-- `a ?? b`.
abbrev pub or_else : Value → Value → Value
or_else undefined w = w
or_else null w = w
or_else v w = v

bool_beq : Bool → Bool → Bool
bool_beq true b = b
bool_beq false b = not b

-- `a === b`, and membership in a `Set`, between values of which no two are one and the same array
-- or object.
unfoldable pub strict_equal : Value → Value → Bool
unfolding bool_beq
strict_equal undefined undefined = true
strict_equal null null = true
strict_equal (bool a) (bool b) = bool_beq a b
strict_equal (num a) (num b) = a == b
strict_equal (hundredths a) (hundredths b) = a == b
strict_equal (str a) (str b) = a == b
strict_equal _ _ = false

-- A record whose key is another keeps its value.
pub get-set_ne :
    (o : Object) (k j : String) (v : Value) → (k == j) ≡ false → get (set o k v) j ≡ get o j
get-set_ne end k j v h = rw h
get-set_ne (field i w o) k j v h =
    ground (arith, string_eq.test_iff i k, string_eq.test_iff i j, get-set_ne o k j v)

pub get-set_self : (o : Object) (k : String) (v : Value) → get (set o k v) k ≡ v
get-set_self end k v = rw (==_refl k)
get-set_self (field i w o) k v = ground (arith, string_eq.test_iff i k, get-set_self o k v)
