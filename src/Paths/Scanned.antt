-- ===== src/Paths/Scanned.antt =====
-- The loop over the links in `shortestPath` (apps/frontend/src/services/graphInvestigation.ts): what
-- a node leads to is queued behind the rest, each by a path, and nothing is lost.
use mathlib.Core.List.{Memᴰ}
use mathlib.Core.List.Memᴰ
use identity_access_graph.Prelude.{
  String, Bool, true, false, List, [], ◌∷◌, ◌++◌, Option, none, some, ◌≡◌, refl, length-append, ◌⊎◌,
  inl, inr, All, All-append, arith, sym, ap, subst, ◌∙◌, if◌then◌else◌, includes, ◌==◌, ==_refl,
  string_eq, Bool-cases, ◌||◌,
}
use identity_access_graph.Linux.Graph.{GraphLink}
use identity_access_graph.Paths.Search.{
  PathDirection, Visit, Frontier, depth_of, next_of, visit_from, offer, scan,
}
use identity_access_graph.Paths.Walks.{Edge, extend, IsTrail}
use identity_access_graph.Paths.Queues.{IsLevels, IsLevels-concat}

abbrev pub HasId : List Visit → String → Type 0
HasId vs i = (v : Visit) × Memᴰ v vs × (v.node_id ≡ i)

-- Every entry of the queue is visited.
abbrev pub AllVisited : List String → List Visit → Type 0
AllVisited visited = All (λ v. includes visited v.node_id ≡ true)

AllVisited-more :
    (visited : List String) (vs : List Visit) (i : String)
    → AllVisited visited vs
    → AllVisited (i ∷ visited) vs
AllVisited-more visited [] i h = tt
AllVisited-more visited (v ∷ vs) i h = (ground (arith, h.0), AllVisited-more visited vs i h.1)

module _ (direction : PathDirection) (allowed : GraphLink → Bool) (ls : List GraphLink)
    (source : String) where
  abbrev pub AllTrails : List Visit → Type 0
  AllTrails = All (IsTrail direction allowed ls source)

  -- From one state of the loop to a later one, behind the node `v`.
  pub record Scanned (v : Visit) (s t : Frontier) : Type 0 where
    pub stays : (w : Visit) → Memᴰ w s.queue → Memᴰ w t.queue
    pub keeps : (i : String) → includes s.visited i ≡ true → includes t.visited i ≡ true
    pub seen :
        (i : String) → includes t.visited i ≡ true → (includes s.visited i ≡ true) ⊎ HasId t.queue i
    pub levels : IsLevels (depth_of v) s.queue → IsLevels (depth_of v) t.queue
    pub held : AllVisited s.visited s.queue → AllVisited t.visited t.queue
    pub trails : IsTrail direction allowed ls source v → AllTrails s.queue → AllTrails t.queue

  pub Scanned-refl : (v : Visit) (s : Frontier) → Scanned v s s
  Scanned-refl v s = record {
    stays = λ w m. m;
    keeps = λ i h. h;
    seen = λ i h. inl h;
    levels = λ h. h;
    held = λ h. h;
    trails = λ p h. h;
  }

  Scanned-trans : {v : Visit} {s t u : Frontier} → Scanned v s t → Scanned v t u → Scanned v s u
  Scanned-trans {v} {s} {t} {u} p q = record {
    stays = λ w m. q.stays w (p.stays w m);
    keeps = λ i h. q.keeps i (p.keeps i h);
    seen = λ i h. elim (q.seen i h) [
      | inl g ↦ elim (p.seen i g) [ inl k ↦ inl k | inr (w, m, e) ↦ inr (w, q.stays w m, e) ]
      | inr k ↦ inr k
    ];
    levels = λ h. q.levels (p.levels h);
    held = λ h. q.held (p.held h);
    trails = λ k h. q.trails k (p.trails k h);
  }

  queued-Scanned :
      (v : Visit) (l : GraphLink) (i : String) (s : Frontier)
      → Edge direction allowed ls l v.node_id i
      → Scanned v s
          (record { queue = s.queue ++ visit_from v l.id i ∷ []; visited = i ∷ s.visited })
  queued-Scanned v l i s e = record {
    stays = λ w m. Memᴰ.append_left _ m;
    keeps = λ j h. ground (arith, h);
    seen = λ j h. elim (Bool-cases (i == j)) [
      | inl k ↦ inr (
        visit_from v l.id i,
        Memᴰ.append_right s.queue (Memᴰ.head refl),
        (string_eq.test_iff i j).0 k,
      )
      | inr k ↦ inl (subst (λ b. (b || includes s.visited j) ≡ true) k h)
    ];
    levels = λ h.
        IsLevels-concat (depth_of v) s.queue (visit_from v l.id i)
          (length-append v.links (l.id ∷ [])) h;
    held = λ h.
        All-append _ s.queue _ (AllVisited-more s.visited s.queue i h) (rw (==_refl i) refl, tt);
    trails = λ p h. All-append (IsTrail direction allowed ls source) s.queue _ h (extend p e, tt);
  }

  offer-Scanned :
      (v : Visit) (l : GraphLink) (o : Option String) (s : Frontier)
      → ((i : String) → o ≡ some i → Edge direction allowed ls l v.node_id i)
      → Scanned v s (offer v l.id o s)
  offer-Scanned v l none s h = Scanned-refl v s
  offer-Scanned v l (some i) s h = elim (Bool-cases (includes s.visited i)) [
    | inl e ↦ rw e (Scanned-refl v s)
    | inr e ↦ rw e (queued-Scanned v l i s (h i refl))
  ]

  if_some :
      (b : Bool) (o : Option String) (i : String)
      → (if b then o else none) ≡ some i
      → (b ≡ true) × (o ≡ some i)
  if_some true o i e = (refl, e)
  if_some false o i e = cc e

  pub scan-Scanned :
      (v : Visit) (ks : List GraphLink) (s : Frontier)
      → ((l : GraphLink) → Memᴰ l ks → Memᴰ l ls)
      → Scanned v s (scan direction allowed v ks s)
  unfolding scan
  scan-Scanned v [] s h = Scanned-refl v s
  scan-Scanned v (l ∷ ks) s h =
      Scanned-trans
        (offer-Scanned v l _ s (λ i e.
          let p = if_some (allowed l) (next_of direction l v.node_id) i e in
          record { inside = h l (Memᴰ.head refl); may = p.0; leads = p.1 }))
        (scan-Scanned v ks _ (λ k m. h k (Memᴰ.tail m)))

  offer-visited :
      (v : Visit) (link i : String) (s : Frontier)
      → includes (offer v link (some i) s).visited i ≡ true
  offer-visited v link i s = elim (Bool-cases (includes s.visited i)) [
    | inl e ↦ rw e e
    | inr e ↦ rw e (rw (==_refl i) refl)
  ]

  -- What a link leads to is visited afterwards.
  pub scan-covers :
      (v : Visit) (ks : List GraphLink) (s : Frontier) (l : GraphLink) (i : String)
      → ((l : GraphLink) → Memᴰ l ks → Memᴰ l ls)
      → Memᴰ l ks
      → allowed l ≡ true
      → next_of direction l v.node_id ≡ some i
      → includes (scan direction allowed v ks s).visited i ≡ true
  unfolding scan
  scan-covers v [] s l i h m a e = elim m [ ]
  scan-covers v (k ∷ ks) s l i h (Memᴰ.head p) a e =
      let a' : allowed k ≡ true = ap allowed (sym p) ∙ a in
      let e' : next_of direction k v.node_id ≡ some i =
        ap (λ l. next_of direction l v.node_id) (sym p) ∙ e in
      (scan-Scanned v ks _ (λ k m. h k (Memᴰ.tail m))).keeps i (
        subst (λ o. includes (offer v k.id o s).visited i ≡ true)
          (sym (if_given (allowed k) (next_of direction k v.node_id) i a' e'))
          (offer-visited v k.id i s))
    where
      if_given :
          (b : Bool) (o : Option String) (i : String)
          → b ≡ true
          → o ≡ some i
          → (if b then o else none) ≡ some i
      if_given true o i e p = p
      if_given false o i e p = cc e
  scan-covers v (k ∷ ks) s l i h (Memᴰ.tail m) a e =
      scan-covers v ks _ l i (λ k m. h k (Memᴰ.tail m)) m a e
