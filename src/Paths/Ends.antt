-- ===== src/Paths/Ends.antt =====
-- The `while` loop of `shortestPath` (apps/frontend/src/services/graphInvestigation.ts) ends: each
-- entry of the queue is an end of a link that was not visited before.
use identity_access_graph.Prelude.{
  ℕ, zero, suc, ◌+◌, ◌*◌, ◌≤◌, String, Bool, true, false, List, [], ◌∷◌, Option, none, some, ◌≡◌,
  ◌≢◌, refl, length, length-append, ◌⊎◌, inl, inr, arith, sym, ap, subst, ◌∙◌, if◌then◌else◌,
  includes, ◌==◌, string_eq, Bool-cases, leb, ◌||◌,
}
use identity_access_graph.Linux.Graph.{GraphLink, end_id}
use identity_access_graph.Paths.Search.{
  PathDirection, directed, undirected, Visit, Frontier, next_of, non_empty, offer, visit_from, scan,
  expand, search, SearchOutcome, found, out_of_fuel, start_at, enough,
}

abbrev pub ends_of : List GraphLink → List String
ends_of [] = []
ends_of (l ∷ ls) = end_id l.source ∷ end_id l.target ∷ ends_of ls

pub length-ends_of : (ls : List GraphLink) → length (ends_of ls) ≡ 2 * length ls
length-ends_of [] = omega arith
length-ends_of (l ∷ ls) = omega (arith, length-ends_of ls)

-- How many of the ends are not visited.
abbrev pub unseen : List String → List String → ℕ
unseen visited [] = 0
unseen visited (i ∷ is) = (if includes visited i then 0 else 1) + unseen visited is

pub unseen-le : (visited is : List String) → unseen visited is ≤ length is
unseen-le visited [] = omega arith
unseen-le visited (i ∷ is) = ground (arith, unseen-le visited is)

unseen-more : (visited is : List String) (i : String) → unseen (i ∷ visited) is ≤ unseen visited is
unseen-more visited [] i = omega arith
unseen-more visited (j ∷ is) i = ground (arith, unseen-more visited is i)

unseen-new :
    (visited is : List String) (i : String)
    → includes visited i ≡ false
    → includes is i ≡ true
    → unseen (i ∷ visited) is + 1 ≤ unseen visited is
unseen-new visited [] i h m = cc m
unseen-new visited (j ∷ is) i h m = elim (Bool-cases (j == i)) [
  | inl e ↦
      let p : j ≡ i = (string_eq.test_iff j i).0 e in
      let h' : includes visited j ≡ false = ap (includes visited) p ∙ h in
      let now : (i == j) ≡ true = (string_eq.test_iff i j).1 (sym p) in
      rw (h', now) (omega (arith, unseen-more visited is i))
  | inr e ↦
      let m' : includes is i ≡ true = subst (λ b. (b || includes is i) ≡ true) e m in
      ground (arith, unseen-new visited is i h m')
]

abbrev pub measure : List String → Frontier → ℕ
measure es s = length s.queue + unseen s.visited es

offer-measure :
    (es : List String) (v : Visit) (link : String) (o : Option String) (s : Frontier)
    → ((i : String) → o ≡ some i → includes es i ≡ true)
    → measure es (offer v link o s) ≤ measure es s
offer-measure es v link none s h = omega arith
offer-measure es v link (some i) s h = elim (Bool-cases (includes s.visited i)) [
  | inl e ↦ rw e (omega arith)
  | inr e ↦ rw e (
      omega (
        arith,
        unseen-new s.visited es i e (h i refl),
        length-append s.queue (visit_from v link i ∷ []),
      ))
]

-- What a link leads to is one of its ends.
abbrev AtEnd : String → String → Option String → Type 0
AtEnd a b none = Unit
AtEnd a b (some i) = (a ≡ i) ⊎ (b ≡ i)

module _ (a b : String) where
  if-AtEnd :
      (t : Bool) (o p : Option String) → AtEnd a b o → AtEnd a b p → AtEnd a b (if t then o else p)
  if-AtEnd true o p h k = h
  if-AtEnd false o p h k = k

  AtEnd-includes :
      (o : Option String) (i : String) (rest : List String)
      → AtEnd a b o
      → o ≡ some i
      → includes (a ∷ b ∷ rest) i ≡ true
  AtEnd-includes none i rest h e = cc e
  AtEnd-includes (some j) i rest (inl p) e =
      let same : a ≡ i = cc (p, e) in
      let now : (a == i) ≡ true = (string_eq.test_iff a i).1 same in rw now refl
  AtEnd-includes (some j) i rest (inr p) e =
      let same : b ≡ i = cc (p, e) in
      let now : (b == i) ≡ true = (string_eq.test_iff b i).1 same in rw now (ground arith)

next-AtEnd :
    (direction : PathDirection) (l : GraphLink) (i : String)
    → AtEnd (end_id l.source) (end_id l.target) (next_of direction l i)
next-AtEnd directed l i =
    let a = end_id l.source in
    let b = end_id l.target in
    if-AtEnd a b (a == i) (non_empty b) none (if-AtEnd a b (b == "") none (some b) tt (inr refl)) tt
next-AtEnd undirected l i =
    let a = end_id l.source in
    let b = end_id l.target in
    if-AtEnd a b (a == i) (non_empty b) (if b == i then non_empty a else none)
      (if-AtEnd a b (b == "") none (some b) tt (inr refl))
      (if-AtEnd a b (b == i) (non_empty a) none (if-AtEnd a b (a == "") none (some a) tt (inl refl))
        tt)

includes-later :
    (es : List String) (a b i : String) → includes es i ≡ true → includes (a ∷ b ∷ es) i ≡ true
includes-later es a b i h = ground (arith, h)

module _ (direction : PathDirection) (allowed : GraphLink → Bool) where
  scan-measure :
      (es : List String) (v : Visit) (ks : List GraphLink) (s : Frontier)
      → ((i : String) → includes (ends_of ks) i ≡ true → includes es i ≡ true)
      → measure es (scan direction allowed v ks s) ≤ measure es s
  unfolding scan
  scan-measure es v [] s h = omega arith
  scan-measure es v (l ∷ ks) s h =
      let o = if allowed l then next_of direction l v.node_id else none in
      let at : AtEnd (end_id l.source) (end_id l.target) o =
        if-AtEnd _ _ (allowed l) _ none (next-AtEnd direction l v.node_id) tt in
      let one =
        offer-measure es v l.id o s (λ i e. h i (AtEnd-includes _ _ o i (ends_of ks) at e)) in
      let later =
        scan-measure es v ks (offer v l.id o s)
          (λ i e. h i (includes-later (ends_of ks) (end_id l.source) (end_id l.target) i e)) in
      omega (arith, one, later)

module _ (direction : PathDirection) (allowed : GraphLink → Bool) (ls : List GraphLink)
    (target : String) (bound : ℕ) where
  pub expand-measure :
      (v : Visit) (s : Frontier)
      → measure (ends_of ls) (expand direction allowed ls target bound v s) ≤ measure (ends_of ls) s
  expand-measure v s = elim (Bool-cases (leb bound (length v.links))) [
    | inl e ↦ rw e (omega arith)
    | inr e ↦ rw e (scan-measure direction allowed (ends_of ls) v ls s (λ i h. h))
  ]

  if-ends :
      (b : Bool) (v : Visit) (o : SearchOutcome)
      → o ≢ out_of_fuel
      → (if b then found v else o) ≢ out_of_fuel
  if-ends true v o h e = cc e
  if-ends false v o h e = h e

  search-ends :
      (fuel : ℕ) (vs : List Visit) (visited : List String)
      → length vs + unseen visited (ends_of ls) ≤ fuel
      → search direction allowed ls target bound fuel vs visited ≢ out_of_fuel
  unfolding search
  search-ends fuel [] visited h e = cc e
  search-ends zero (v ∷ vs) visited h e = absurd (omega (arith, h))
  search-ends (suc fuel) (v ∷ vs) visited h e =
      let s =
        expand direction allowed ls target bound v (record { queue = vs; visited = visited }) in
      let less = expand-measure v (record { queue = vs; visited = visited }) in
      if-ends (v.node_id == target) v _
        (search-ends fuel s.queue s.visited (omega (arith, h, less))) e

  pub start-ends :
      (source : String)
      → search direction allowed ls target bound (enough ls) (start_at source ∷ []) (source ∷ [])
        ≢ out_of_fuel
  start-ends source =
      search-ends (enough ls) (start_at source ∷ []) (source ∷ [])
        (omega (arith, unseen-le (source ∷ []) (ends_of ls), length-ends_of ls))
