-- ===== src/Graph.antt =====
-- web/src/graphState.ts and graphSubscription.ts: the graph that the client holds.
pub mod State
