-- ===== src/Prelude/Search.antt =====
-- Searches in a list whose elements are changed in a way that the search does not see, and the
-- Boolean searches through appended lists.
use mathlib.Core.Path.{◌≡◌, refl, sym, ap, ap₂, ◌∙◌}
use mathlib.Core.Bool.{Bool, true, false, ◌&&◌, ◌||◌}
use mathlib.Core.List.{List, [], ◌∷◌, ◌++◌, map}
use mathlib.Core.Logic.{inl, inr}
use mathlib.Core.Option.{Option, none, some, map as map_some}
use native.Mathlib.Omega.{arith}
use identity_access_graph.Prelude.Tests.{string_eq, if◌then◌else◌, Bool-cases}
use identity_access_graph.Prelude.Lists.{filter, find, any}

pub ||_assoc : (a b c : Bool) → ((a || b) || c) ≡ (a || (b || c))
||_assoc true b c = refl
||_assoc false b c = refl

pub ||_comm : (a b : Bool) → (a || b) ≡ (b || a)
||_comm a b = ground arith

pub ||_false : (a : Bool) → (a || false) ≡ a
||_false a = ground arith

abbrev pub is_some {ℓ} : {A : Type ℓ} → Option A → Bool
is_some none = false
is_some (some a) = true

pub map_some_same {ℓ κ} :
    {A : Type ℓ} {B : Type κ} (u : A → A) (f f' : Option A → B)
    → f none ≡ f' none
    → ((x : A) → f (some (u x)) ≡ f' (some x))
    → (o : Option A) → f (map_some u o) ≡ f' o
map_some_same u f f' e h none = e
map_some_same u f f' e h (some x) = h x

module _ {ℓ} {A : Type ℓ} (u : A → A) where
  if-map :
      (a b : Bool) (x : A) (xs : List A)
      → a ≡ b
      → (if a then u x ∷ map u xs else map u xs) ≡ map u (if b then x ∷ xs else xs)
  if-map true true x xs e = refl
  if-map false false x xs e = refl
  if-map true false x xs e = cc e
  if-map false true x xs e = cc e

  pub filter-map_same :
      (p : A → Bool)
      → ((x : A) → p (u x) ≡ p x)
      → (xs : List A) → filter p (map u xs) ≡ map u (filter p xs)
  filter-map_same p h [] = refl
  filter-map_same p h (x ∷ xs) =
      rw (filter-map_same p h xs) (if-map (p (u x)) (p x) x (filter p xs) (h x))

  pub find-map_same :
      (p : A → Bool)
      → ((x : A) → p (u x) ≡ p x)
      → (xs : List A) → find p (map u xs) ≡ map_some u (find p xs)
  find-map_same p h [] = refl
  find-map_same p h (x ∷ xs) = elim (Bool-cases (p x)) [
    | inl e ↦ let e' : p (u x) ≡ true = cc (h x, e) in rw (e, e') refl
    | inr e ↦ let e' : p (u x) ≡ false = cc (h x, e) in rw (e, e') (find-map_same p h xs)
  ]

  pub any-map_same :
      (p : A → Bool) → ((x : A) → p (u x) ≡ p x) → (xs : List A) → any p (map u xs) ≡ any p xs
  any-map_same p h [] = refl
  any-map_same p h (x ∷ xs) = ap₂ (λ a b. a || b) (h x) (any-map_same p h xs)

  pub map-map_same {κ} :
      {B : Type κ} (f : A → B)
      → ((x : A) → f (u x) ≡ f x)
      → (xs : List A) → map f (map u xs) ≡ map f xs
  map-map_same f h [] = refl
  map-map_same f h (x ∷ xs) = ap₂ ◌∷◌ (h x) (map-map_same f h xs)

module _ {ℓ} {A : Type ℓ} where
  pub any-append : (p : A → Bool) (xs ys : List A) → any p (xs ++ ys) ≡ (any p xs || any p ys)
  any-append p [] ys = refl
  any-append p (x ∷ xs) ys = ground (arith, any-append p xs ys)

  pub any-ext : (p q : A → Bool) → ((x : A) → p x ≡ q x) → (xs : List A) → any p xs ≡ any q xs
  any-ext p q h [] = refl
  any-ext p q h (x ∷ xs) = ap₂ (λ a b. a || b) (h x) (any-ext p q h xs)

  -- Two filters in a row are one.
  pub filter-filter :
      (p q : A → Bool) (xs : List A) → filter q (filter p xs) ≡ filter (λ x. p x && q x) xs
  filter-filter p q [] = refl
  filter-filter p q (x ∷ xs) = elim (Bool-cases (p x)) [
    | inl e ↦ rw e (ap (λ r. if q x then x ∷ r else r) (filter-filter p q xs))
    | inr e ↦ rw e (filter-filter p q xs)
  ]

  pub filter-ext :
      (p q : A → Bool) → ((x : A) → p x ≡ q x) → (xs : List A) → filter p xs ≡ filter q xs
  filter-ext p q h [] = refl
  filter-ext p q h (x ∷ xs) = ap₂ (λ b r. if b then x ∷ r else r) (h x) (filter-ext p q h xs)

  pub filter-true : (xs : List A) → filter (λ _. true) xs ≡ xs
  filter-true [] = refl
  filter-true (x ∷ xs) = ap (◌∷◌ x) (filter-true xs)

pub any-map {ℓ κ} :
    {A : Type ℓ} {B : Type κ} (p : B → Bool) (f : A → B) (xs : List A)
    → any p (map f xs) ≡ any (λ x. p (f x)) xs
any-map p f [] = refl
any-map p f (x ∷ xs) = ap (λ b. p (f x) || b) (any-map p f xs)

pub any-filter {ℓ} :
    {A : Type ℓ} (p q : A → Bool) (xs : List A) → any p (filter q xs) ≡ any (λ x. q x && p x) xs
any-filter p q [] = refl
any-filter p q (x ∷ xs) = elim (Bool-cases (q x)) [
  | inl e ↦ rw e (ap (λ b. p x || b) (any-filter p q xs))
  | inr e ↦ rw e (any-filter p q xs)
]

pub map-map_ext {ℓ κ μ} :
    {A : Type ℓ} {B : Type κ} {C : Type μ} (f : B → C) (h : A → B) (k : A → C)
    → ((x : A) → f (h x) ≡ k x)
    → (xs : List A) → map f (map h xs) ≡ map k xs
map-map_ext f h k e [] = refl
map-map_ext f h k e (x ∷ xs) = ap₂ ◌∷◌ (e x) (map-map_ext f h k e xs)

-- `(a || b) || (c || d)` with the middle two exchanged.
||_exchange : (a b c d : Bool) → ((a || b) || (c || d)) ≡ ((a || c) || (b || d))
||_exchange a b c d = ground arith

any-or {ℓ} :
    {A : Type ℓ} (p q : A → Bool) (xs : List A) → any (λ x. p x || q x) xs ≡ (any p xs || any q xs)
any-or p q [] = refl
any-or p q (x ∷ xs) =
    ap (λ b. (p x || q x) || b) (any-or p q xs) ∙ ||_exchange (p x) (q x) (any p xs) (any q xs)

any-none {ℓ} : {A : Type ℓ} (xs : List A) → any (λ _. false) xs ≡ false
any-none [] = refl
any-none (x ∷ xs) = any-none xs

-- Two searches one within the other, in either order.
pub any-swap {ℓ κ} :
    {A : Type ℓ} {B : Type κ} (p : A → B → Bool) (xs : List A) (ys : List B)
    → any (λ x. any (p x) ys) xs ≡ any (λ y. any (λ x. p x y) xs) ys
any-swap p [] ys = sym (any-none ys)
any-swap p (x ∷ xs) ys =
    ap (λ b. any (p x) ys || b) (any-swap p xs ys)
    ∙ sym (any-or (p x) (λ y. any (λ x. p x y) xs) ys)
