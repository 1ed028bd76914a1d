-- ===== src/Paths/Rounds.antt =====
-- A round of the `while` loop of `shortestPath` (apps/frontend/src/services/graphInvestigation.ts)
-- keeps what holds of the queue and of the nodes that are done with.
use mathlib.Core.List.{Memᴰ}
use identity_access_graph.Prelude.{
  ℕ, zero, suc, ◌+◌, ◌≤◌, ◌<◌, String, Bool, includes, true, List, ◌∷◌, ◌≡◌, ◌≢◌, refl, ◌⊎◌, inl,
  inr, arith, sym, ap, subst, ◌∙◌, if_true, includes, string_eq, Bool-cases, leb,
}
use identity_access_graph.Linux.Graph.{GraphLink}
use identity_access_graph.Paths.Search.{PathDirection, Visit, Frontier, depth_of, expand}
use identity_access_graph.Paths.Walks.{Walk, stay, go}
use identity_access_graph.Paths.Queues.{IsLevels, IsLevels-rest, IsLevels-head, IsLevels-mem}
use identity_access_graph.Paths.Scanned.{Scanned, HasId}
use identity_access_graph.Paths.Searching.{
  Covered, IsSearched, weaken, expand-Scanned, expand-covers,
}

module _ (direction : PathDirection) (allowed : GraphLink → Bool) (ls : List GraphLink)
    (source target : String) (bound : ℕ) where
  module _ (done : List Visit) (v : Visit) (vs : List Visit) (visited : List String) (d : ℕ)
      (h : IsSearched direction allowed ls source target bound done (v ∷ vs) visited d) where
    abbrev rest : Frontier
    rest = record { queue = vs; visited = visited }

    abbrev next : Frontier
    next = expand direction allowed ls target bound v rest

    abbrev scanned : Scanned direction allowed ls source v rest next
    scanned = expand-Scanned direction allowed ls source target bound v rest

    abbrev W : String → String → ℕ → Type 0
    W = Walk direction allowed ls

    abbrev Reaches : ℕ → String → Type 0
    Reaches = Covered direction allowed ls source target bound (v ∷ done) next.queue

    low : IsLevels (depth_of v) vs
    low = IsLevels-rest d v vs h.levels

    in_next :
        {e : Visit} {n : String} {j k : ℕ}
        → Memᴰ e vs
        → W e.node_id n j
        → depth_of e + j ≤ k
        → Reaches k n
    in_next {e} {n} {j} m w le = inr (e, j, scanned.stays e m, w, le)

    from_queue :
        {n : String} (x : Visit) (i j : ℕ)
        → Memᴰ x (v ∷ vs)
        → W x.node_id n i
        → depth_of x + i ≤ depth_of v + j
        → ((k : ℕ) → k ≤ j → W v.node_id n k → Reaches (depth_of v + suc j) n)
        → Reaches (depth_of v + suc j) n
    from_queue {n} x i j (Memᴰ.head p) wx le again =
        let le' : depth_of v + i ≤ depth_of v + j =
          subst (λ (y : Visit). depth_of y + i ≤ depth_of v + j) p le in
        again i (omega (arith, le')) (subst (λ (y : Visit). W y.node_id n i) p wx)
    from_queue x i j (Memᴰ.tail mx) wx le again = in_next mx wx (omega (arith, le))

    -- From a node that was visited before.
    from_old :
        (j : ℕ) (n m : String)
        → includes visited m ≡ true
        → W m n j
        → depth_of v + j ≤ bound
        → ((i : ℕ) → i ≤ j → W v.node_id n i → Reaches (depth_of v + suc j) n)
        → Reaches (depth_of v + suc j) n
    from_old j n m old w b again = elim (h.seen m old) [
      | inl (u, mu, eu) ↦
          let below : depth_of u ≤ depth_of v =
            omega (arith, h.low u mu, IsLevels-head d v vs h.levels) in
          elim (h.reach u n j mu (subst (λ i. W i n j) (sym eu) w) (omega (arith, below, b))) [
            | inl (y, my, ey) ↦ inl (y, Memᴰ.tail my, ey)
            | inr (x, i, mx, wx, le) ↦ from_queue x i j mx wx (omega (arith, le, below)) again
          ]
      | inr (x, Memᴰ.head p, ex) ↦
          again j (omega arith) (subst (λ i. W i n j) (sym ex ∙ ap (λ (y : Visit). y.node_id) p) w)
      | inr (x, Memᴰ.tail mx, ex) ↦
          in_next mx (subst (λ i. W i n j) (sym ex) w)
            (omega (arith, (IsLevels-mem (depth_of v) vs x low mx).1))
    ]

    from_head :
        (fuel j : ℕ) (n : String)
        → j ≤ fuel
        → W v.node_id n j
        → depth_of v + j ≤ bound
        → Reaches (depth_of v + j) n
    from_head fuel zero n f stay b = inl (v, Memᴰ.head refl, refl)
    from_head zero (suc j) n f w b = absurd (omega (arith, f))
    from_head (suc fuel) (suc j) n f (go {b = m} e w) b =
        let f' : j ≤ fuel = omega (arith, f) in
        let b' : depth_of v + j ≤ bound = omega (arith, b) in
        let now =
          expand-covers direction allowed ls source target bound v rest _ m (omega (arith, b)) e in
        elim (scanned.seen m now) [
          | inr (x, mx, ex) ↦ inr (
            x,
            j,
            mx,
            subst (λ i. W i n j) (sym ex) w,
            omega (arith, (IsLevels-mem (depth_of v) next.queue x (scanned.levels low) mx).1),
          )
          | inl old ↦ from_old j n m old w b' (λ i le w.
              weaken direction allowed ls source target bound (omega (arith, le))
                (from_head fuel i n (omega (arith, le, f')) w (omega (arith, le, b'))))
        ]

    next-shallow : (w : Visit) → Memᴰ w next.queue → depth_of w ≤ bound
    next-shallow w m = elim (Bool-cases (leb bound (depth_of v))) [
      | inl e ↦
          h.shallow w (Memᴰ.tail (subst (λ (s : Frontier). Memᴰ w s.queue) (if_true _ rest _ e) m))
      | inr e ↦
          let few : depth_of v < bound = ground (arith, e) in
          omega (arith, few, (IsLevels-mem (depth_of v) next.queue w (scanned.levels low) m).1)
    ]

    next-seen :
        (i : String) → includes next.visited i ≡ true → HasId (v ∷ done) i ⊎ HasId next.queue i
    next-seen i e = elim (scanned.seen i e) [
      | inr q ↦ inr q
      | inl old ↦ elim (h.seen i old) [
        | inl (u, mu, eu) ↦ inl (u, Memᴰ.tail mu, eu)
        | inr (x, Memᴰ.head p, ex) ↦ inl (x, Memᴰ.head p, ex)
        | inr (x, Memᴰ.tail mx, ex) ↦ inr (x, scanned.stays x mx, ex)
      ]
    ]

    next-reach :
        (u : Visit) (n : String) (j : ℕ)
        → Memᴰ u (v ∷ done)
        → W u.node_id n j
        → depth_of u + j ≤ bound
        → Reaches (depth_of u + j) n
    next-reach u n j (Memᴰ.head p) w b =
        subst (λ (y : Visit). Reaches (depth_of y + j) n) (sym p)
          (from_head j j n (omega arith) (subst (λ (y : Visit). W y.node_id n j) p w)
            (subst (λ (y : Visit). depth_of y + j ≤ bound) p b))
    next-reach u n j (Memᴰ.tail mu) w b = elim (h.reach u n j mu w b) [
      | inl (y, my, ey) ↦ inl (y, Memᴰ.tail my, ey)
      | inr (x, i, Memᴰ.head p, wx, le) ↦
          let le' : depth_of v + i ≤ depth_of u + j =
            subst (λ (y : Visit). depth_of y + i ≤ depth_of u + j) p le in
          weaken direction allowed ls source target bound le' (
            from_head i i n (omega arith) (subst (λ (y : Visit). W y.node_id n i) p wx)
              (omega (arith, le', b)))
      | inr (x, i, Memᴰ.tail mx, wx, le) ↦ in_next mx wx le
    ]

    next-low : (u : Visit) → Memᴰ u (v ∷ done) → depth_of u ≤ depth_of v
    next-low u (Memᴰ.head p) = subst (λ (y : Visit). depth_of y ≤ depth_of v) (sym p) (omega arith)
    next-low u (Memᴰ.tail mu) = omega (arith, h.low u mu, IsLevels-head d v vs h.levels)

    next-missed : v.node_id ≢ target → (u : Visit) → Memᴰ u (v ∷ done) → u.node_id ≢ target
    next-missed ne u (Memᴰ.head p) e = ne (ap (λ (y : Visit). y.node_id) (sym p) ∙ e)
    next-missed ne u (Memᴰ.tail mu) e = h.missed u mu e

    next-origin :
        (u : Visit) × (Memᴰ u (v ∷ done) ⊎ Memᴰ u next.queue)
        × (u.node_id ≡ source)
        × (depth_of u ≡ 0)
    next-origin = elim (h.origin.1) [
      | inl mu ↦ (h.origin.0, inl (Memᴰ.tail mu), h.origin.2, h.origin.3)
      | inr (Memᴰ.head p) ↦ (h.origin.0, inl (Memᴰ.head p), h.origin.2, h.origin.3)
      | inr (Memᴰ.tail mx) ↦ (h.origin.0, inr (scanned.stays h.origin.0 mx), h.origin.2, h.origin.3)
    ]

    pub next-IsSearched :
        v.node_id ≢ target
        → IsSearched direction allowed ls source target bound
            (v ∷ done)
            next.queue
            next.visited
            (depth_of v)
    next-IsSearched ne = record {
      trails = scanned.trails h.trails.0 h.trails.1;
      levels = scanned.levels low;
      shallow = next-shallow;
      low = next-low;
      seen = next-seen;
      missed = next-missed ne;
      reach = next-reach;
      origin = next-origin;
    }

    head_least : (e : Visit) → Memᴰ e (v ∷ vs) → depth_of v ≤ depth_of e
    head_least e (Memᴰ.head p) =
        subst (λ (y : Visit). depth_of v ≤ depth_of y) (sym p) (omega arith)
    head_least e (Memᴰ.tail m) = (IsLevels-mem (depth_of v) vs e low m).0

    -- The head of the queue is at the target: no shorter walk leads there.
    pub found-least : v.node_id ≡ target → (k : ℕ) → W source target k → k ≤ bound → depth_of v ≤ k
    found-least at k w b = elim (h.origin.1) [
      | inr mq ↦ omega (arith, head_least h.origin.0 mq, h.origin.3)
      | inl md ↦
          let zero_deep : depth_of h.origin.0 ≡ 0 = h.origin.3 in
          elim (h.reach h.origin.0 target k md (subst (λ i. W i target k) (sym h.origin.2) w)
            (omega (arith, zero_deep, b))) [
              | inl (u, mu, eu) ↦ absurd (h.missed u mu eu)
              | inr (e, j, me, we, le) ↦ omega (arith, head_least e me, le, zero_deep)
            ]
    ]
