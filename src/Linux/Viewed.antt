-- ===== src/Linux/Viewed.antt =====
-- The state of apps/frontend/src/services/linuxGraphAdapter.ts between two calls: the graph is the
-- loaded one or the one with all pushes, and the cache holds what the loaded graph gave at the moments
-- of calls.
use mathlib.Core.List.{Memᴰ}
use identity_access_graph.Prelude.{
  String, List, [], ◌∷◌, Option, none, some, ◌≡◌, ◌⊎◌, refl, sym, ap, ap₂, subst, ◌∙◌, Bool-cases,
  inl, inr, if◌then◌else◌, if_true, map, filter, ◌==◌, string_eq, All, All-append, filter-map_same,
  map-map_same,
}
use identity_access_graph.Linux.Graph.{GraphData, GraphNode, get_node_by_id}
use identity_access_graph.Linux.Host.{LinuxHostSummary, get_host_summary}
use identity_access_graph.Linux.Policies.{Clock}
use identity_access_graph.Linux.Users.{push_memberships, get_linux_users_for_host, pushed_node}
use identity_access_graph.Linux.Detail.{
  Adapter, LinuxHostDetail, cached, host_detail_of, new_detail, detail_or_new, store_detail,
  get_host_detail, is_host, summaries, with_counts, get_all_linux_hosts,
}
use identity_access_graph.Linux.Pushed.{summary-pushed, summary-pushed_node}
use identity_access_graph.Linux.Members.{push_memberships_twice}
use identity_access_graph.Linux.Pure.{
  pure_detail_of, detail_in, row_in, rows_in, host_detail_of-pure, detail_in-pushed,
}

abbrev pub GraphOf : GraphData → GraphData → Type 0
GraphOf g k = (k ≡ g) ⊎ (k ≡ push_memberships g)

pub GraphOf-push : (g k : GraphData) → GraphOf g k → GraphOf g (push_memberships k)
GraphOf-push g k (inl e) = inr (ap push_memberships e)
GraphOf-push g k (inr e) = inr (ap push_memberships e ∙ push_memberships_twice g)

module _ (ms : List Clock) (g : GraphData) where
  -- What the loaded graph gave at one of the moments.
  abbrev pub Seen : String → Option LinuxHostDetail → Type 0
  Seen i o = (c : Clock) × Memᴰ c ms × (o ≡ detail_in c g i)

  -- An entry of the cache is what the loaded graph gave.
  abbrev pub IsCurrent : String × LinuxHostDetail → Type 0
  IsCurrent (k, d) = Seen k (some d)

  abbrev pub IsViewOf : Adapter → Type 0
  IsViewOf a = GraphOf g a.graph_data × All IsCurrent a.host_detail_cache

  pub cached-IsCurrent :
      (kds : List (String × LinuxHostDetail)) (i : String) (d : LinuxHostDetail)
      → All IsCurrent kds
      → cached kds i ≡ some d
      → Seen i (some d)
  cached-IsCurrent [] i d h e = cc e
  cached-IsCurrent ((k, b) ∷ kds) i d (p, h) e = elim (Bool-cases (k == i)) [
    | inl q ↦
        let same : k ≡ i = (string_eq.test_iff k i).0 q in
        let e' : some b ≡ some d = subst (λ t. (if t then some b else cached kds i) ≡ some d) q e in
        (p.0, p.1, sym e' ∙ (p.2 ∙ ap (detail_in p.0 g) same))
    | inr q ↦
        cached-IsCurrent kds i d h (subst (λ t. (if t then some b else cached kds i) ≡ some d) q e)
  ]

module _ (c : Clock) (ms : List Clock) (g : GraphData) where
  later-All :
      (kds : List (String × LinuxHostDetail))
      → All (IsCurrent ms g) kds
      → All (IsCurrent (c ∷ ms) g) kds
  later-All [] h = tt
  later-All ((k, d) ∷ kds) (p, h) = ((p.0, Memᴰ.tail p.1, p.2), later-All kds h)

  -- A moment later the same holds.
  pub later-IsViewOf : (a : Adapter) → IsViewOf ms g a → IsViewOf (c ∷ ms) g a
  later-IsViewOf a (v, w) = (v, later-All a.host_detail_cache w)

module _ (c : Clock) (g : GraphData) where
  detail_in-GraphOf : (k : GraphData) (i : String) → GraphOf g k → detail_in c k i ≡ detail_in c g i
  detail_in-GraphOf k i (inl e) = ap (λ k. detail_in c k i) e
  detail_in-GraphOf k i (inr e) = ap (λ k. detail_in c k i) e ∙ detail_in-pushed c g i

  new_detail-pure :
      (a : Adapter) (i : String) (o : Option GraphNode)
      → (new_detail c a i o).0 ≡ pure_detail_of c a.graph_data i o
  unfolding new_detail
  new_detail-pure a i none = refl
  new_detail-pure a i (some n) = elim (Bool-cases (is_host n)) [
    | inl e ↦ rw e (ap some (host_detail_of-pure c a.graph_data n i))
    | inr e ↦ rw e refl
  ]

  summary-GraphOf :
      (k : GraphData) (n : GraphNode) → GraphOf g k → get_host_summary k n ≡ get_host_summary g n
  summary-GraphOf k n (inl e) = ap (λ k. get_host_summary k n) e
  summary-GraphOf k n (inr e) = ap (λ k. get_host_summary k n) e ∙ summary-pushed g n

  rows-GraphOf :
      (k : GraphData) → GraphOf g k → map (row_in c g) (filter is_host k.nodes) ≡ rows_in c g
  unfolding push_memberships
  rows-GraphOf k (inl e) = ap (λ (k : GraphData). map (row_in c g) (filter is_host k.nodes)) e
  rows-GraphOf k (inr e) =
      ap (λ (k : GraphData). map (row_in c g) (filter is_host k.nodes)) e
      ∙ (ap (map (row_in c g)) (filter-map_same (pushed_node g.links) is_host (λ n. refl) g.nodes)
          ∙ map-map_same (pushed_node g.links) (row_in c g)
              (λ n. ap (λ s. with_counts s (detail_in c g n.id)) (summary-pushed_node g n)) _)

module _ (c d : Clock) (g : GraphData) where
  counts_of :
      (s : LinuxHostSummary) (i : String) (o : Option GraphNode)
      → with_counts s (pure_detail_of c g i o) ≡ with_counts s (pure_detail_of d g i o)
  unfolding with_counts
  counts_of s i none = refl
  counts_of s i (some n) = elim (Bool-cases (is_host n)) [ inl e ↦ rw e refl | inr e ↦ rw e refl ]

  counts_same :
      (s : LinuxHostSummary) (i : String)
      → with_counts s (detail_in c g i) ≡ with_counts s (detail_in d g i)
  counts_same s i = counts_of s i (get_node_by_id g i)

module _ (c : Clock) (ms : List Clock) (here : Memᴰ c ms) (g : GraphData) where
  abbrev HasViewed : Adapter → Type 0
  HasViewed = IsViewOf ms g

  store_detail-IsViewOf :
      (a : Adapter) (i : String) (n : GraphNode)
      → HasViewed a
      → some (host_detail_of c a.graph_data n i).0 ≡ detail_in c g i
      → HasViewed (store_detail c a i (host_detail_of c a.graph_data n i))
  unfolding store_detail host_detail_of get_linux_users_for_host
  store_detail-IsViewOf a i n (v, w) h = (
    GraphOf-push g a.graph_data v,
    All-append (IsCurrent ms g) a.host_detail_cache _ w ((c, here, h), tt),
  )

  new_detail-IsViewOf :
      (a : Adapter) (i : String) (o : Option GraphNode)
      → HasViewed a
      → pure_detail_of c a.graph_data i o ≡ detail_in c g i
      → HasViewed (new_detail c a i o).1
  unfolding new_detail
  new_detail-IsViewOf a i none v h = v
  new_detail-IsViewOf a i (some n) v h = elim (Bool-cases (is_host n)) [
    | inl e ↦ rw e (
        store_detail-IsViewOf a i n v (
          ap some (host_detail_of-pure c a.graph_data n i)
          ∙ (sym (if_true (is_host n) _ none e) ∙ h)))
    | inr e ↦ rw e v
  ]

  detail_or_new-view :
      (a : Adapter) (i : String) (o : Option LinuxHostDetail)
      → HasViewed a
      → cached a.host_detail_cache i ≡ o
      → Seen ms g i (detail_or_new c a i o).0 × HasViewed (detail_or_new c a i o).1
  unfolding detail_or_new
  detail_or_new-view a i (some d) v e = (cached-IsCurrent ms g a.host_detail_cache i d v.1 e, v)
  detail_or_new-view a i none v e =
      let same = detail_in-GraphOf c g a.graph_data i v.0 in
      (
        (c, here, new_detail-pure c g a i (get_node_by_id a.graph_data i) ∙ same),
        new_detail-IsViewOf a i (get_node_by_id a.graph_data i) v same,
      )

  -- The call gives what the loaded graph gave at one of the moments, and leaves a state of the same kind.
  pub get_host_detail-view :
      (a : Adapter) (i : String)
      → HasViewed a
      → Seen ms g i (get_host_detail c a i).0 × HasViewed (get_host_detail c a i).1
  unfolding get_host_detail
  get_host_detail-view a i v = detail_or_new-view a i (cached a.host_detail_cache i) v refl

  -- The counts of a row are those of the moment, whenever the detail was read.
  counts-Seen :
      (s : LinuxHostSummary) (i : String) (o : Option LinuxHostDetail)
      → Seen ms g i o
      → with_counts s o ≡ with_counts s (detail_in c g i)
  counts-Seen s i o p = ap (with_counts s) p.2 ∙ counts_same p.0 c g s i

  pub summaries-view :
      (a : Adapter) (ns : List GraphNode)
      → HasViewed a
      → ((summaries c a ns).0 ≡ map (row_in c g) ns) × HasViewed (summaries c a ns).1
  unfolding summaries
  summaries-view a [] v = (refl, v)
  summaries-view a (n ∷ ns) v =
      let r = get_host_detail-view a n.id v in
      let rest = summaries-view (get_host_detail c a n.id).1 ns r.1 in
      (
        ap₂ ◌∷◌
            (ap (λ s. with_counts s (get_host_detail c a n.id).0)
                (summary-GraphOf c g a.graph_data n v.0)
              ∙ counts-Seen _ n.id _ r.0)
            rest.0,
        rest.1,
      )

  pub get_all_linux_hosts-view :
      (a : Adapter)
      → HasViewed a
      → ((get_all_linux_hosts c a).0 ≡ rows_in c g) × HasViewed (get_all_linux_hosts c a).1
  unfolding get_all_linux_hosts
  get_all_linux_hosts-view a v =
      let r = summaries-view a (filter is_host a.graph_data.nodes) v in
      (r.0 ∙ rows-GraphOf c g a.graph_data v.0, r.1)
