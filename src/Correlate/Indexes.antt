-- ===== src/Correlate/Indexes.antt =====
-- The index of `correlate` (apps/backend/src/imports/correlation/identity-correlation.service.ts)
-- refers to groups that are there, and so does what is found in it.
use identity_access_graph.Prelude.{
  ℕ, ◌+◌, ◌<◌, String, Bool, true, false, List, [], ◌∷◌, ◌++◌, Option, none, some, Bool-cases, inl,
  inr, if◌then◌else◌, All, All-append, arith, ◌==◌, string_eq, ◌+s◌,
}
use identity_access_graph.Correlate.Keys.{
  Case, CorrelationRecord, Strategy, strategies, MatchMethod, Confidence,
}
use identity_access_graph.Correlate.Groups.{
  Target, index_at, add_index, target_by, first_target, register_by, register, find_by, find_target,
}

-- Each entry of the index refers to a group that is there.
abbrev pub IsIndexOf : ℕ → List (String × ℕ) → Type 0
IsIndexOf n = All (λ (e : String × ℕ). e.1 < n)

abbrev pub IsInRange : ℕ → Option Target → Type 0
IsInRange n none = Unit
IsInRange n (some t) = t.group < n

abbrev IsPlace : ℕ → Option ℕ → Type 0
IsPlace n none = Unit
IsPlace n (some i) = i < n

module _ (n : ℕ) where
  index_at-IsPlace :
      (is : List (String × ℕ)) (key : String) → IsIndexOf n is → IsPlace n (index_at is key)
  index_at-IsPlace [] key h = tt
  index_at-IsPlace ((j, i) ∷ is) key (p, h) = elim (Bool-cases (j == key)) [
    | inl e ↦ rw e p
    | inr e ↦ rw e (index_at-IsPlace is key h)
  ]

  target_by-IsInRange :
      (m : MatchMethod) (c : Confidence) (o : Option ℕ)
      → IsPlace n o
      → IsInRange n (target_by m c o)
  target_by-IsInRange m c none h = tt
  target_by-IsInRange m c (some i) h = h

  first_target-IsInRange :
      (a b : Option Target) → IsInRange n a → IsInRange n b → IsInRange n (first_target a b)
  first_target-IsInRange none b p q = q
  first_target-IsInRange (some t) b p q = p

  if-IsInRange :
      (b : Bool) (o : Option Target) → IsInRange n o → IsInRange n (if b then none else o)
  if-IsInRange true o p = tt
  if-IsInRange false o p = p

  add_index-IsIndexOf :
      (name value : String) (i : ℕ) (is : List (String × ℕ))
      → i < n
      → IsIndexOf n is
      → IsIndexOf n (add_index name value i is)
  add_index-IsIndexOf name value i is h p = both _
    where
      both : (b : Bool) → IsIndexOf n (if b then is ++ (name +s ":" +s value, i) ∷ [] else is)
      both true = All-append (λ (e : String × ℕ). e.1 < n) is _ p (h, tt)
      both false = p

  pub IsIndexOf-suc : (is : List (String × ℕ)) → IsIndexOf n is → IsIndexOf (n + 1) is
  IsIndexOf-suc [] h = tt
  IsIndexOf-suc (e ∷ is) (p, h) = (omega (arith, p), IsIndexOf-suc is h)

module _ (k : Case) (options : List String) (n : ℕ) where
  register_by-IsIndexOf :
      (ss : List Strategy) (i : ℕ) (r : CorrelationRecord) (is : List (String × ℕ))
      → i < n
      → IsIndexOf n is
      → IsIndexOf n (register_by k options ss i r is)
  register_by-IsIndexOf [] i r is h p = p
  register_by-IsIndexOf (s ∷ ss) i r is h p =
      register_by-IsIndexOf ss i r _ h (add_index-IsIndexOf n s.field_name _ i is h p)

  pub register-IsIndexOf :
      (i : ℕ) (r : CorrelationRecord) (is : List (String × ℕ))
      → i < n
      → IsIndexOf n is
      → IsIndexOf n (register k options i r is)
  unfolding register
  register-IsIndexOf i r is h p =
      add_index-IsIndexOf n "composite" _ i _ h (register_by-IsIndexOf (strategies k) i r is h p)

  find_by-IsInRange :
      (ss : List Strategy) (r : CorrelationRecord) (is : List (String × ℕ))
      → IsIndexOf n is
      → IsInRange n (find_by k options ss r is)
  find_by-IsInRange [] r is p = tt
  find_by-IsInRange (s ∷ ss) r is p =
      first_target-IsInRange n _ _
        (if-IsInRange n _ _
          (target_by-IsInRange n s.method s.confidence _ (index_at-IsPlace n is _ p)))
        (find_by-IsInRange ss r is p)

  pub find_target-IsInRange :
      (r : CorrelationRecord) (is : List (String × ℕ))
      → IsIndexOf n is
      → IsInRange n (find_target k options r is)
  unfolding find_target
  find_target-IsInRange r is p =
      first_target-IsInRange n _ _ (find_by-IsInRange (strategies k) r is p)
        (if-IsInRange n _ _ (target_by-IsInRange n _ _ _ (index_at-IsPlace n is _ p)))
