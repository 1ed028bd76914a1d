-- ===== src/Linux/Calls.antt =====
-- Sequences of calls of the functions that apps/frontend/src/services/linuxGraphAdapter.ts exports,
-- and what they leave in its state.
use identity_access_graph.Prelude.{String, List, [], ◌∷◌}
use identity_access_graph.Linux.Graph.{GraphData}
use identity_access_graph.Linux.Policies.{Clock}
use identity_access_graph.Linux.Effective.{
  compute_effective_access, get_access_paths_for_identity, compute_reverse_access,
}
use identity_access_graph.Linux.Hazards.{compute_risk_findings}
use identity_access_graph.Linux.Detail.{
  Adapter, set_linux_graph_data, clear_cache, get_host_detail, get_all_linux_hosts,
}
use identity_access_graph.Linux.Filtering.{LinuxHostFilters, get_linux_hosts_by_filter}

pub data AdapterCall : Type 0 where
  load : GraphData → AdapterCall
  clear all_hosts : AdapterCall
  host_detail effective_access reverse_access risk_findings : String → AdapterCall
  access_paths : String → String → AdapterCall
  hosts_by_filter : LinuxHostFilters → AdapterCall

abbrev pub with_graph : Adapter → GraphData → Adapter
with_graph a g = record a { graph_data = g }

module _ (c : Clock) (lower : String → String) where
  unfoldable pub call_leaves : Adapter → AdapterCall → Adapter
  call_leaves a (load g) = set_linux_graph_data g a
  call_leaves a clear = clear_cache a
  call_leaves a all_hosts = (get_all_linux_hosts c a).1
  call_leaves a (host_detail i) = (get_host_detail c a i).1
  call_leaves a (effective_access i) = with_graph a (compute_effective_access a.graph_data i).1
  call_leaves a (reverse_access i) = with_graph a (compute_reverse_access a.graph_data i).1
  call_leaves a (risk_findings i) = with_graph a (compute_risk_findings c a.graph_data i).1
  call_leaves a (access_paths i j) = with_graph a (get_access_paths_for_identity a.graph_data i j).1
  call_leaves a (hosts_by_filter f) = (get_linux_hosts_by_filter c lower f a).1

-- Calls, each with the clock at its moment.
abbrev pub TimedCalls : Type 0
TimedCalls = List (Clock × AdapterCall)

abbrev pub calls_leave : (String → String) → Adapter → TimedCalls → Adapter
calls_leave lower a [] = a
calls_leave lower a ((c, k) ∷ ks) = calls_leave lower (call_leaves c lower a k) ks

-- `let graphData = { nodes: [], links: [] }`, and the empty cache.
abbrev pub no_graph : GraphData
no_graph = record { nodes = []; links = [] }

abbrev pub initial : Adapter
initial = record { graph_data = no_graph; host_detail_cache = [] }

-- The graph behind a call, and the graph that the calls loaded last.
abbrev pub graph_after : GraphData → AdapterCall → GraphData
graph_after g (load k) = k
graph_after g _ = g

abbrev pub loaded : GraphData → TimedCalls → GraphData
loaded g [] = g
loaded g ((c, k) ∷ ks) = loaded (graph_after g k) ks

-- The clocks of the calls since the cache was last emptied.
abbrev pub moments_after : List Clock → Clock → AdapterCall → List Clock
moments_after ms c (load k) = []
moments_after ms c clear = []
moments_after ms c _ = c ∷ ms

abbrev pub moments : List Clock → TimedCalls → List Clock
moments ms [] = ms
moments ms ((c, k) ∷ ks) = moments (moments_after ms c k) ks
