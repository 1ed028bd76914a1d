-- ===== src/Prelude/Sets.antt =====
-- Sets of texts that an array holds: `if (!ids.includes(id)) ids.push(id)`, `[...new Set(ids)]`.
use Prim.Native.Nat.{◌≤◌}
use Prim.Native.String.{String}
use mathlib.Core.Path.{◌≡◌, refl, sym, ap, subst, ◌∙◌}
use mathlib.Core.Bool.{Bool, true, ◌||◌}
use mathlib.Core.List.{List, [], ◌∷◌, ◌++◌}
use mathlib.Core.Logic.{inl, inr}
use native.Mathlib.Omega.{arith}
use identity_access_graph.Prelude.Tests.{
  string_eq, ◌==◌, if◌then◌else◌, Bool-cases, ==_refl, if_true,
}
use identity_access_graph.Prelude.Lists.{any, includes, length}
use identity_access_graph.Prelude.Search.{any-append, ||_assoc, ||_false}

abbrev pub with_missing : List String → String → List String
with_missing ids i = if includes ids i then ids else ids ++ i ∷ []

-- The same for each of a list.
unfoldable pub push_missing : List String → List String → List String
push_missing ids [] = ids
push_missing ids (i ∷ is) = push_missing (with_missing ids i) is

any-included :
    (q : String → Bool) (ids : List String) (i : String)
    → includes ids i ≡ true
    → any q ids ≡ (any q ids || q i)
any-included q [] i e = cc e
any-included q (k ∷ ids) i e = elim (Bool-cases (k == i)) [
  | inl f ↦
      let p : k ≡ i = (string_eq.test_iff k i).0 f in
      subst (λ j. (q j || any q ids) ≡ ((q j || any q ids) || q i)) (sym p) (ground arith)
  | inr f ↦
      let e' : includes ids i ≡ true = subst (λ b. (b || includes ids i) ≡ true) f e in
      ap (λ b. q k || b) (any-included q ids i e') ∙ sym (||_assoc (q k) (any q ids) (q i))
]

pub any-with_missing :
    (q : String → Bool) (ids : List String) (i : String)
    → any q (with_missing ids i) ≡ (any q ids || q i)
any-with_missing q ids i = elim (Bool-cases (includes ids i)) [
  | inl e ↦ rw e (any-included q ids i e)
  | inr e ↦ rw e (any-append q ids (i ∷ []) ∙ ap (λ b. any q ids || b) (||_false (q i)))
]

-- The array has afterwards what it had and what was to be pushed.
pub any-push_missing :
    (q : String → Bool) (ids is : List String)
    → any q (push_missing ids is) ≡ (any q ids || any q is)
unfolding push_missing
any-push_missing q ids [] = sym (||_false (any q ids))
any-push_missing q ids (i ∷ is) =
    any-push_missing q (with_missing ids i) is
    ∙ (ap (λ b. b || any q is) (any-with_missing q ids i) ∙ ||_assoc (any q ids) (q i) (any q is))

push_missing-same :
    (ids is : List String)
    → ((i : String) → includes is i ≡ true → includes ids i ≡ true)
    → push_missing ids is ≡ ids
unfolding push_missing
push_missing-same ids [] h = refl
push_missing-same ids (i ∷ is) h =
    let e : includes ids i ≡ true = h i (rw (==_refl i) refl) in
    ap (λ k. push_missing k is) (if_true _ ids (ids ++ i ∷ []) e)
    ∙ push_missing-same ids is (λ j p. h j (ground (arith, p)))

pub push_missing_twice :
    (ids is : List String) → push_missing (push_missing ids is) is ≡ push_missing ids is
push_missing_twice ids is =
    push_missing-same (push_missing ids is) is
      (λ i e. any-push_missing (λ x. x == i) ids is ∙ ground (arith, e))

-- A set with one text at most has no two.
pub includes-one :
    (ids : List String) (a b : String)
    → length ids ≤ 1
    → includes ids a ≡ true
    → includes ids b ≡ true
    → a ≡ b
includes-one [] a b h p q = cc p
includes-one (i ∷ []) a b h p q =
    sym ((string_eq.test_iff i a).0 (sym (||_false (i == a)) ∙ p))
    ∙ (string_eq.test_iff i b).0 (sym (||_false (i == b)) ∙ q)
includes-one (i ∷ j ∷ ids) a b h p q = absurd (omega (arith, h))
