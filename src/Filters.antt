-- ===== src/Filters.antt =====
-- apps/frontend/src/hooks/useGraphFilters.ts: what of a graph is shown. `Apply` models the hook,
-- `Shown` proves what is left of the graph.
mod Apply
mod Shown
mod Tests
