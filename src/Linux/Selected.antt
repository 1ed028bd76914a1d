-- ===== src/Linux/Selected.antt =====
-- `getLinuxHostsByFilter` and `getHostDetail` (apps/frontend/src/services/linuxGraphAdapter.ts)
-- after any calls, against what the loaded graph gives.
use mathlib.Core.List.{Memᴰ}
use identity_access_graph.Prelude.{
  ltb, length, String, Bool, true, false, List, [], ◌∷◌, Option, none, some, ◌≡◌, refl, sym, ap,
  ap₂, ◌∙◌, inl, inr, Bool-cases, map_some, if◌then◌else◌, filter, filter-true, all, string_eq,
}
use identity_access_graph.Linux.Graph.{GraphData, GraphNode, get_node_by_id, is_text}
use identity_access_graph.Linux.Host.{LinuxHostSummary}
use identity_access_graph.Linux.Policies.{Clock}
use identity_access_graph.Linux.Users.{push_memberships, get_linux_users_for_host}
use identity_access_graph.Linux.Detail.{
  Adapter, LinuxHostDetail, is_host, cached, get_host_detail, set_linux_graph_data, clear_cache,
}
use identity_access_graph.Linux.Effective.{
  compute_effective_access, get_access_paths_for_identity, compute_reverse_access,
}
use identity_access_graph.Linux.Hazards.{compute_risk_findings}
use identity_access_graph.Linux.Filtering.{
  LinuxHostFilters, Hosts, detail_has, detail_at, keep_with, filter_details,
  get_linux_hosts_by_filter,
}
use identity_access_graph.Linux.Calls.{
  AdapterCall, load, clear, all_hosts, host_detail, effective_access, reverse_access, risk_findings,
  access_paths, hosts_by_filter, call_leaves, calls_leave, initial, no_graph, loaded, TimedCalls,
  graph_after, moments_after, moments,
}
use identity_access_graph.Linux.Pure.{pure_detail, pure_detail_of, detail_in, rows_in}
use identity_access_graph.Linux.Ageless.{ageless, detail_in-ageless}
use identity_access_graph.Linux.Viewed.{
  Seen, later-IsViewOf, IsViewOf, GraphOf-push, cached-IsCurrent, get_host_detail-view,
  get_all_linux_hosts-view,
}
use identity_access_graph.Linux.Criteria.{
  criteria_on_row, on_detail, meets, searched, filter_search-filter, filter_summaries-filter,
  four_filters,
}

module _ (c d : Clock) (g : GraphData) where
  items_of :
      (items : LinuxHostDetail → List String)
      → ((n : GraphNode) (i : String) → items (pure_detail c g n i) ≡ items (pure_detail d g n i))
      → (i : String) (o : Option GraphNode)
      → detail_has items (pure_detail_of c g i o) ≡ detail_has items (pure_detail_of d g i o)
  items_of items h i none = refl
  items_of items h i (some n) = elim (Bool-cases (is_host n)) [
    | inl e ↦ rw e (ap (λ is. ltb 0 (length is)) (h n i))
    | inr e ↦ rw e refl
  ]

  same_applications :
      (i : String)
      → detail_has (λ d. d.applications) (detail_in c g i)
        ≡ detail_has (λ d. d.applications) (detail_in d g i)
  same_applications i = items_of (λ d. d.applications) (λ n i. refl) i (get_node_by_id g i)

  same_databases :
      (i : String)
      → detail_has (λ d. d.databases) (detail_in c g i)
        ≡ detail_has (λ d. d.databases) (detail_in d g i)
  same_databases i = items_of (λ d. d.databases) (λ n i. refl) i (get_node_by_id g i)

module _ (c : Clock) (ms : List Clock) (here : Memᴰ c ms) (g : GraphData) where
  detail_at-view :
      (a : Adapter) (i : String) (o : Option LinuxHostDetail)
      → IsViewOf ms g a
      → cached a.host_detail_cache i ≡ o
      → Seen ms g i (detail_at c a i o).0 × IsViewOf ms g (detail_at c a i o).1
  detail_at-view a i none v e = get_host_detail-view c ms here g a i v
  detail_at-view a i (some d) v e = (cached-IsCurrent ms g a.host_detail_cache i d v.1 e, v)

  keep_with-view :
      (items : LinuxHostDetail → List String) (a : Adapter) (hs : Hosts)
      → ((d : Clock) (i : String)
          → detail_has items (detail_in d g i) ≡ detail_has items (detail_in c g i))
      → IsViewOf ms g a
      → ((keep_with c items a hs).0 ≡ filter (λ h. detail_has items (detail_in c g h.id)) hs)
        × IsViewOf ms g (keep_with c items a hs).1
  unfolding keep_with
  keep_with-view items a [] same v = (refl, v)
  keep_with-view items a (h ∷ hs) same v =
      let r = detail_at-view a h.id (cached a.host_detail_cache h.id) v refl in
      let rest =
        keep_with-view items (detail_at c a h.id (cached a.host_detail_cache h.id)).1 hs same r.1 in
      (
        ap₂ (λ (b : Bool) (k : Hosts). if b then h ∷ k else k)
            (ap (detail_has items) r.0.2 ∙ same r.0.0 h.id) rest.0,
        rest.1,
      )

  keep_if-view :
      (b : Bool) (items : LinuxHostDetail → List String) (a : Adapter) (hs : Hosts)
      → ((d : Clock) (i : String)
          → detail_has items (detail_in d g i) ≡ detail_has items (detail_in c g i))
      → IsViewOf ms g a
      → ((if b then keep_with c items a hs else (hs, a)).0
          ≡ filter (λ h. if b then detail_has items (detail_in c g h.id) else true) hs)
        × IsViewOf ms g (if b then keep_with c items a hs else (hs, a)).1
  keep_if-view true items a hs same v = keep_with-view items a hs same v
  keep_if-view false items a hs same v = (sym (filter-true hs), v)

  filter_details-view :
      (w : Option String) (items : LinuxHostDetail → List String) (a : Adapter) (hs : Hosts)
      → ((d : Clock) (i : String)
          → detail_has items (detail_in d g i) ≡ detail_has items (detail_in c g i))
      → IsViewOf ms g a
      → ((filter_details c w items a hs).0 ≡ filter (on_detail c g w items) hs)
        × IsViewOf ms g (filter_details c w items a hs).1
  unfolding filter_details
  filter_details-view w items a hs same v = keep_if-view (is_text w "yes") items a hs same v

  by_filter-view :
      (lower : String → String) (f : LinuxHostFilters) (a : Adapter)
      → IsViewOf ms g a
      → ((get_linux_hosts_by_filter c lower f a).0 ≡ filter (meets c lower g f) (rows_in c g))
        × IsViewOf ms g (get_linux_hosts_by_filter c lower f a).1
  unfolding get_linux_hosts_by_filter
  by_filter-view lower f a v =
      let r0 = get_all_linux_hosts-view c ms here g a v in
      let r1 =
        filter_details-view f.has_application (λ d. d.applications) _ _
          (λ d i. same_applications d c g i) r0.1 in
      let r2 =
        filter_details-view f.has_database (λ d. d.databases) _ _ (λ d i. same_databases d c g i)
          r1.1 in
      let on_row = λ (h : LinuxHostSummary). all (λ p. p h) (criteria_on_row f) in
      let e0 = filter_summaries-filter f _ ∙ ap (filter on_row) r0.0 in
      let e1 = r1.0 ∙ ap (filter _) e0 in
      let e2 = r2.0 ∙ ap (filter _) e1 in
      (
        filter_search-filter lower f.search _
            ∙ (ap (filter (searched lower f.search)) e2 ∙ four_filters on_row _ _ _ (rows_in c g)),
        r2.1,
      )

module _ (c : Clock) (ms : List Clock) (g : GraphData) where
  abbrev now_here : Memᴰ c (c ∷ ms)
  now_here = Memᴰ.head refl

  later : (a : Adapter) → IsViewOf ms g a → IsViewOf (c ∷ ms) g a
  later a v = later-IsViewOf c ms g a v

  call_leaves-IsViewOf :
      (lower : String → String) (a : Adapter) (k : AdapterCall)
      → IsViewOf ms g a
      → IsViewOf (moments_after ms c k) (graph_after g k) (call_leaves c lower a k)
  unfolding call_leaves set_linux_graph_data clear_cache compute_effective_access
      get_access_paths_for_identity compute_reverse_access compute_risk_findings
      get_linux_users_for_host
  call_leaves-IsViewOf lower a (load k) v = (inl refl, tt)
  call_leaves-IsViewOf lower a clear v = (v.0, tt)
  call_leaves-IsViewOf lower a all_hosts v =
      (get_all_linux_hosts-view c (c ∷ ms) now_here g a (later a v)).1
  call_leaves-IsViewOf lower a (host_detail i) v =
      (get_host_detail-view c (c ∷ ms) now_here g a i (later a v)).1
  call_leaves-IsViewOf lower a (effective_access i) v =
      (GraphOf-push g a.graph_data v.0, (later a v).1)
  call_leaves-IsViewOf lower a (reverse_access i) v =
      (GraphOf-push g a.graph_data v.0, (later a v).1)
  call_leaves-IsViewOf lower a (risk_findings i) v = (
    GraphOf-push g (push_memberships a.graph_data) (GraphOf-push g a.graph_data v.0),
    (later a v).1,
  )
  call_leaves-IsViewOf lower a (access_paths i j) v =
      (GraphOf-push g a.graph_data v.0, (later a v).1)
  call_leaves-IsViewOf lower a (hosts_by_filter f) v =
      (by_filter-view c (c ∷ ms) now_here g lower f a (later a v)).1

module _ (lower : String → String) where
  calls_leave-IsViewOf :
      (ms : List Clock) (g : GraphData) (a : Adapter) (ks : TimedCalls)
      → IsViewOf ms g a
      → IsViewOf (moments ms ks) (loaded g ks) (calls_leave lower a ks)
  calls_leave-IsViewOf ms g a [] v = v
  calls_leave-IsViewOf ms g a ((c, k) ∷ ks) v =
      calls_leave-IsViewOf (moments_after ms c k) (graph_after g k) (call_leaves c lower a k) ks
        (call_leaves-IsViewOf c ms g lower a k v)

  reached :
      (c : Clock) (ks : TimedCalls)
      → IsViewOf (c ∷ moments [] ks) (loaded no_graph ks) (calls_leave lower initial ks)
  reached c ks =
      later-IsViewOf c (moments [] ks) (loaded no_graph ks) _
        (calls_leave-IsViewOf [] no_graph initial ks (inl refl, tt))

  -- After any calls at any moments, getHostDetail gives the detail that a reading without state gives
  -- of the graph that was loaded last, whatever the calls between pushed into the graph's arrays: as
  -- it was at this call, or, from the cache, at one of the calls since the cache was last emptied; and
  -- but for the keys' `unused` it is the detail of this call.
  pub get_host_detail-loaded :
      (ks : TimedCalls) (c : Clock) (i : String)
      → let o = (get_host_detail c (calls_leave lower initial ks) i).0 in
        Seen (c ∷ moments [] ks) (loaded no_graph ks) i o
        × (map_some ageless o ≡ map_some ageless (detail_in c (loaded no_graph ks) i))
  get_host_detail-loaded ks c i =
      let seen =
        (get_host_detail-view c (c ∷ moments [] ks) (Memᴰ.head refl) (loaded no_graph ks) _ i
          (reached c ks)).0 in
      (seen, ap (map_some ageless) seen.2 ∙ detail_in-ageless seen.0 c (loaded no_graph ks) i)

  -- After any calls, getLinuxHostsByFilter gives the rows of the graph that was loaded last that
  -- meet all the criteria, in the order of the graph: each row with the counts of the host's detail,
  -- each criterion a test of that row alone.
  pub get_linux_hosts_by_filter-meets :
      (ks : TimedCalls) (c : Clock) (f : LinuxHostFilters)
      → (get_linux_hosts_by_filter c lower f (calls_leave lower initial ks)).0
        ≡ filter (meets c lower (loaded no_graph ks) f) (rows_in c (loaded no_graph ks))
  get_linux_hosts_by_filter-meets ks c f =
      (by_filter-view c (c ∷ moments [] ks) (Memᴰ.head refl) (loaded no_graph ks) lower f _
        (reached c ks)).0
