-- ===== src/Paths/Lockstep.antt =====
-- The loop of `blastRadius` and that of `shortestPath` (apps/frontend/src/services/
-- graphInvestigation.ts) over the links that leave a node, in step.
use identity_access_graph.Prelude.{
  ℕ, ◌+◌, String, Bool, true, false, List, [], ◌∷◌, ◌++◌, some, ◌≡◌, ◌≢◌, length-append, map,
  map-append, inl, inr, All, sym, ap, ◌∙◌, if◌then◌else◌, includes, ◌==◌, string_eq, Bool-cases,
  leb, ◌||◌, any-append, ||_comm, ||_false,
}
use identity_access_graph.Linux.Graph.{GraphLink, end_id}
use identity_access_graph.Paths.Search.{
  directed, Visit, Frontier, depth_of, next_of, offer, scan, expand, visit_from,
}
use identity_access_graph.Paths.Blast.{
  BlastVisit, BlastFrontier, blast_offer, blast_scan, blast_expand,
}

abbrev pub any_link : GraphLink → Bool
any_link _ = true

abbrev pub view_of : Visit → BlastVisit
view_of v = record { id = v.node_id; depth = depth_of v }

-- The same nodes wait, at the same depths, and the same nodes are visited.
pub record Matches (s : Frontier) (b : BlastFrontier) : Type 0 where
  pub waiting : b.queue ≡ map view_of s.queue
  pub same : (i : String) → includes b.visited i ≡ includes s.visited i

includes-concat :
    (is : List String) (i j : String) → includes (is ++ i ∷ []) j ≡ ((i == j) || includes is j)
includes-concat is i j =
    any-append (λ k. k == j) is (i ∷ [])
    ∙ (ap (λ b. includes is j || b) (||_false (i == j)) ∙ ||_comm (includes is j) (i == j))

queued-Matches :
    (v : Visit) (link i : String) (s : Frontier) (b : BlastFrontier)
    → Matches s b
    → Matches
        (record { queue = s.queue ++ visit_from v link i ∷ []; visited = i ∷ s.visited })
        (record {
          queue = b.queue ++ record { id = i; depth = depth_of v + 1 } ∷ [];
          visited = b.visited ++ i ∷ [];
        })
queued-Matches v link i s b h = record {
  waiting =
      ap (λ q. q ++ record { id = i; depth = depth_of v + 1 } ∷ []) h.waiting
      ∙ (ap (λ d. map view_of s.queue ++ record { id = i; depth = d } ∷ [])
            (sym (length-append v.links (link ∷ [])))
          ∙ sym (map-append view_of s.queue (visit_from v link i ∷ [])));
  same = λ j. includes-concat b.visited i j ∙ ap (λ t. (i == j) || t) (h.same j);
}

offer-Matches :
    (v : Visit) (link i : String) (s : Frontier) (b : BlastFrontier)
    → Matches s b
    → Matches (offer v link (some i) s) (blast_offer (view_of v) i b)
offer-Matches v link i s b h = elim (Bool-cases (includes s.visited i)) [
  | inl e ↦ let e' : includes b.visited i ≡ true = h.same i ∙ e in rw (e, e') h
  | inr e ↦
      let e' : includes b.visited i ≡ false = h.same i ∙ e in
      rw (e, e') (queued-Matches v link i s b h)
]

-- No link ends at the empty text.
abbrev pub AllNamed : List GraphLink → Type 0
AllNamed = All (λ l. end_id l.target ≢ "")

link-Matches :
    (v : Visit) (l : GraphLink) (s : Frontier) (b : BlastFrontier)
    → end_id l.target ≢ ""
    → Matches s b
    → Matches
        (offer v l.id (next_of directed l v.node_id) s)
        (if end_id l.source == v.node_id then blast_offer (view_of v) (end_id l.target) b else b)
link-Matches v l s b n h = elim (Bool-cases (end_id l.source == v.node_id)) [
  | inl e ↦ elim (Bool-cases (end_id l.target == "")) [
    | inl d ↦ absurd (n ((string_eq.test_iff (end_id l.target) "").0 d))
    | inr d ↦ rw (e, d) (offer-Matches v l.id (end_id l.target) s b h)
  ]
  | inr e ↦ rw e h
]

scan-Matches :
    (v : Visit) (ls : List GraphLink) (s : Frontier) (b : BlastFrontier)
    → AllNamed ls
    → Matches s b
    → Matches (scan directed any_link v ls s) (blast_scan (view_of v) ls b)
unfolding scan blast_scan
scan-Matches v [] s b n h = h
scan-Matches v (l ∷ ls) s b n h = scan-Matches v ls _ _ n.1 (link-Matches v l s b n.0 h)

pub expand-Matches :
    (ls : List GraphLink) (target : String) (bound : ℕ) (v : Visit) (s : Frontier)
    (b : BlastFrontier)
    → AllNamed ls
    → Matches s b
    → Matches (expand directed any_link ls target bound v s) (blast_expand ls bound (view_of v) b)
expand-Matches ls target bound v s b n h = elim (Bool-cases (leb bound (depth_of v))) [
  | inl e ↦ rw e h
  | inr e ↦ rw e (scan-Matches v ls s b n h)
]
