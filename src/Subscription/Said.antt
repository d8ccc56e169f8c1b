-- ===== src/Subscription/Said.antt =====
-- The graph and the connection that web/src/graphSubscription.ts shows, as what its stream has said.
use kd.Common.{
  ◌≡◌, refl, sym, ap, ◌∙◌, Option, none, some, List, [], ◌∷◌, Text, Option-cases, inl, inr,
}
use kd.Types.{KNode, KGraph}
use kd.Graph.State.{GraphState, empty_state, apply_patch}
use kd.Graph.State.History.{GraphEvent, replayed, meaning, said, replayed-said}
use kd.Subscription.{
  Client, ConnState, StreamEvent, take_snapshot, open_scope, handle, deliver, deliver_all,
}
use kd.Subscription.Stream.{deliver-null, deliver-snapshot}

-- The second one if there are nodes.
abbrev pub if_nodes {ℓ} : {A : Type ℓ} → Option (List KNode) → A → A → A
if_nodes none without given = without
if_nodes (some nodes) without given = given

-- What an event says of the graph, on top of what was said before. A snapshot whose nodes are null makes
-- its handler throw, and says nothing.
abbrev pub graph_event : StreamEvent → List GraphEvent → List GraphEvent
graph_event (StreamEvent.snapshot g) before =
    if_nodes g.nodes before (GraphEvent.snapshot g ∷ before)
graph_event (StreamEvent.patch p) before = GraphEvent.patch p ∷ before
graph_event (StreamEvent.summary m) before = before
graph_event (StreamEvent.capacity c) before = before
graph_event StreamEvent.error before = before

-- The snapshots and patches of a stream on top of those of before, the newest first.
abbrev pub graph_events : List StreamEvent → List GraphEvent → List GraphEvent
graph_events [] before = before
graph_events (ev ∷ evs) before = graph_events evs (graph_event ev before)

-- What an event says of the connection.
abbrev pub link : StreamEvent → ConnState → ConnState
link (StreamEvent.snapshot g) state = if_nodes g.nodes state ConnState.live
link (StreamEvent.patch p) state = state
link (StreamEvent.summary m) state = state
link (StreamEvent.capacity c) state = state
link StreamEvent.error state = ConnState.offline

-- The last snapshot or error of the stream decides on the connection.
abbrev pub connection : List StreamEvent → ConnState → ConnState
connection [] state = state
connection (ev ∷ evs) state = connection evs (link ev state)

-- The client shows a graph and a connection.
abbrev Shows : Client → GraphState → ConnState → Type 0
Shows s graph state = (s.graph ≡ graph) × (s.conn_state ≡ state)

take_snapshot-Shows :
    (g : KGraph) (nodes : List KNode) (s : Client) (before : List GraphEvent) (state : ConnState)
    → Shows (take_snapshot g nodes s) (replayed (GraphEvent.snapshot g ∷ before)) ConnState.live
unfolding take_snapshot
take_snapshot-Shows g nodes s before state = (refl, refl)

deliver-Shows :
    (c ns : Text) (ev : StreamEvent) (s : Client) (before : List GraphEvent) (state : ConnState)
    → Shows s (replayed before) state
    → Shows (deliver c ns ev s) (replayed (graph_event ev before)) (link ev state)
unfolding deliver handle
deliver-Shows c ns (StreamEvent.snapshot g) s before state h = elim (Option-cases g.nodes) [
  | inl e ↦
      let same = deliver-null c ns g s e in
      (
        ap (λ (t : Client). t.graph) same
            ∙ h.0
            ∙ ap (λ o. replayed (if_nodes o before (GraphEvent.snapshot g ∷ before))) (sym e),
        ap (λ (t : Client). t.conn_state) same
            ∙ h.1
            ∙ ap (λ o. if_nodes o state ConnState.live) (sym e),
      )
  | inr (nodes, e) ↦
      let same = deliver-snapshot c ns g nodes s e in
      let (graph, live) = take_snapshot-Shows g nodes s before state in
      (
        ap (λ (t : Client). t.graph) same
            ∙ graph
            ∙ ap (λ o. replayed (if_nodes o before (GraphEvent.snapshot g ∷ before))) (sym e),
        ap (λ (t : Client). t.conn_state) same
            ∙ live
            ∙ ap (λ o. if_nodes o state ConnState.live) (sym e),
      )
]
deliver-Shows c ns (StreamEvent.patch p) s before state h = (ap (λ g. apply_patch g p) h.0, h.1)
deliver-Shows c ns (StreamEvent.summary m) s before state h = h
deliver-Shows c ns (StreamEvent.capacity d) s before state h = h
deliver-Shows c ns StreamEvent.error s before state h = (h.0, refl)

deliver_all-Shows :
    (c ns : Text) (evs : List StreamEvent) (s : Client) (before : List GraphEvent)
    (state : ConnState)
    → Shows s (replayed before) state
    → Shows (deliver_all c ns evs s) (replayed (graph_events evs before)) (connection evs state)
unfolding deliver_all
deliver_all-Shows c ns [] s before state h = h
deliver_all-Shows c ns (ev ∷ evs) s before state h =
    deliver_all-Shows c ns evs (deliver c ns ev s) (graph_event ev before) (link ev state)
      (deliver-Shows c ns ev s before state h)

open_scope-Shows :
    (c ns : Text) (s : Client) → Shows (open_scope c ns s) empty_state ConnState.connecting
unfolding open_scope
open_scope-Shows c ns s = (refl, refl)

-- Whatever the client held before a scope is opened, after any events of its stream the graph is, as a
-- map of nodes and a set of edge keys, what the snapshots and patches of this stream say, the newest one
-- that mentions a node or an edge deciding; a snapshot whose nodes are null says nothing, though patches
-- that came before it go on counting. The connection is live after a snapshot, offline after an error,
-- whichever came last, and connecting while there was neither.
pub deliver_all-said :
    (c ns : Text) (evs : List StreamEvent) (s : Client)
    → let t = deliver_all c ns evs (open_scope c ns s) in
      (meaning t.graph ≡ said (graph_events evs []))
      × (t.conn_state ≡ connection evs ConnState.connecting)
deliver_all-said c ns evs s =
    let (graph, state) =
      deliver_all-Shows c ns evs (open_scope c ns s) [] ConnState.connecting
        (open_scope-Shows c ns s) in
    (ap meaning graph ∙ replayed-said (graph_events evs []), state)
