-- ===== src/Pipeline/Stages/Matching.antt =====
-- Which users the identity matching stage takes for one person.
use identity_access_graph.Prelude.{
  ◌≡◌, refl, sym, ap, ◌∙◌, subst, ◌⊎◌, inl, inr, Bool, true, false, List, [], ◌∷◌, Option, none,
  some, ok, throw, Value, undefined, null, Object, get, strict_equal, Result, ◌>>=◌, Bool-cases,
  if◌then◌else◌, All,
}
use mathlib.Core.List.{Memᴰ}
use identity_access_graph.Pipeline.Stages.{
  same_person, local_part, find_match, find_matches, Match, add_match,
}

abbrev pub IsNullish : Value → Type 0
IsNullish v = (v ≡ undefined) ⊎ (v ≡ null)

local_part_nullish : (v : Value) → IsNullish v → local_part v ≡ ok undefined
unfolding local_part
local_part_nullish v (inl h) = rw h
local_part_nullish v (inr h) = rw h

-- Of an Active Directory user with no mail address and a FreeIPA user with no principal name, the
-- stage says that they are one person, whatever else they give.
pub same_person_unnamed :
    (ad ipa : Object)
    → IsNullish (get ad "email")
    → IsNullish (get ipa "principalName")
    → same_person ad ipa ≡ ok true
unfolding same_person strict_equal
same_person_unnamed ad ipa h k =
    elim (Bool-cases (strict_equal (get ad "sourceId") (get ipa "sourceId"))) [
      | inl e ↦ rw e
      | inr e ↦ rw e (
          rw
            (local_part_nullish (get ad "email") h, local_part_nullish (get ipa "principalName") k))
    ]

-- What a match rests on: a user of each list, of whom the test said that they are one person.
abbrev pub Justified : List Object → List Object → Match → Type 0
Justified ads ipas m =
    (ad : Object) × (ipa : Object) × Memᴰ ad ads
    × Memᴰ ipa ipas
    × (same_person ad ipa ≡ ok true)
    × (m.ad_id ≡ get ad "id")
    × (m.free_ipa_id ≡ get ipa "id")

abbrev Found : Object → List Object → Object → Type 0
Found ad ipas ipa = Memᴰ ipa ipas × (same_person ad ipa ≡ ok true)

Found-step :
    (ad x : Object) (xs : List Object) (o : Option Object) (ipa : Object)
    → (find_match ad xs ≡ ok o → Found ad xs ipa)
    → o ≡ some ipa
    → (r : Result Bool) → same_person ad x ≡ r
    → (r >>= λ same. if same then ok (some x) else find_match ad xs) ≡ ok o
    → Found ad (x ∷ xs) ipa
Found-step ad x xs o ipa ih e (throw m) h k = cc
Found-step ad x xs o ipa ih e (ok true) h k =
    let same : x ≡ ipa = cc in (Memᴰ.head (sym same), ap (same_person ad) (sym same) ∙ h)
Found-step ad x xs o ipa ih e (ok false) h k = let f = ih k in (Memᴰ.tail f.0, f.1)

find_match-Found :
    (ad : Object) (ipas : List Object) (o : Option Object) (ipa : Object)
    → o ≡ some ipa
    → find_match ad ipas ≡ ok o
    → Found ad ipas ipa
unfolding find_match
find_match-Found ad [] o ipa e h = cc
find_match-Found ad (x ∷ xs) o ipa e h =
    Found-step ad x xs o ipa (find_match-Found ad xs o ipa e) e (same_person ad x) refl h

Justified-weaken :
    (ad : Object) (ads ipas : List Object) (ms : List Match)
    → All (Justified ads ipas) ms
    → All (Justified (ad ∷ ads) ipas) ms
Justified-weaken ad ads ipas [] h = tt
Justified-weaken ad ads ipas (m ∷ ms) ((a, i, p, q, r, u, v), h) =
    ((a, i, Memᴰ.tail p, q, r, u, v), Justified-weaken ad ads ipas ms h)

matches_step :
    (ad : Object) (ads ipas : List Object) (ms : List Match)
    → ((rest : List Match) → find_matches ads ipas ≡ ok rest → All (Justified ads ipas) rest)
    → (f : Result (Option Object)) → find_match ad ipas ≡ f
    → (r : Result (List Match)) → find_matches ads ipas ≡ r
    → (f >>= λ found. r >>= λ rest. ok (add_match ad found rest)) ≡ ok ms
    → All (Justified (ad ∷ ads) ipas) ms
matches_step ad ads ipas ms ih (throw m) hf r hr e = cc
matches_step ad ads ipas ms ih (ok o) hf (throw m) hr e = cc
matches_step ad ads ipas ms ih (ok none) hf (ok rest) hr e =
    let same : rest ≡ ms = cc in
    subst (All (Justified (ad ∷ ads) ipas)) same (Justified-weaken ad ads ipas rest (ih rest hr))
matches_step ad ads ipas ms ih (ok (some ipa)) hf (ok rest) hr e =
    let first : Match = record { ad_id = get ad "id"; free_ipa_id = get ipa "id" } in
    let same : first ∷ rest ≡ ms = cc in
    let found = find_match-Found ad ipas (some ipa) ipa refl hf in
    subst (All (Justified (ad ∷ ads) ipas)) same (
      (ad, ipa, Memᴰ.head refl, found.0, found.1, refl, refl),
      Justified-weaken ad ads ipas rest (ih rest hr),
    )

-- Every match that the stage reports joins a user of the one list to a user of the other whom the
-- test took for the same person, and holds the identifiers of these two.
pub find_matches-Justified :
    (ads ipas : List Object) (ms : List Match)
    → find_matches ads ipas ≡ ok ms
    → All (Justified ads ipas) ms
unfolding find_matches
find_matches-Justified [] ipas ms h =
    let same : [] ≡ ms = cc in subst (All (Justified [] ipas)) same tt
find_matches-Justified (ad ∷ ads) ipas ms h =
    matches_step ad ads ipas ms (find_matches-Justified ads ipas) (find_match ad ipas) refl
      (find_matches ads ipas) refl h
