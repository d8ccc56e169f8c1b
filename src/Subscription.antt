-- ===== src/Subscription.antt =====
-- web/src/graphSubscription.ts: the life of one graph subscription inside the state of the client.
pub mod Stream
pub mod Scope
pub mod Said
use kd.Common.{
  ℕ, suc, Bool, true, false, not, Option, none, some, List, [], ◌∷◌, ◌++◌, Text, text_eq, ◌==◌,
  if◌then◌else◌,
}
use kd.Types.{Health, KNode, KGraph, Patch, truthy}
use kd.Graph.State.{GraphState, empty_state, from_snapshot, apply_patch}
use kd.Nav.{resolve_selection_on_snapshot}

-- ConnState of clusterSession.ts
pub data ConnState : Type 0 where
  connecting live offline : ConnState

-- The nodes of the capacity feed; a stream without them sends no list.
pub record Capacity : Type 0 where
  pub nodes : Option (List KNode)

pub record NamespaceSummary : Type 0 where
  pub health : Health
  pub non_ready : Option ℕ

-- The signals that the subscription reads and writes, its two local variables, the number of times
-- that it refetched the contexts, and the summaries it recorded, the latest first.
pub record Client : Type 0 where
  pub selected_id : Option Text
  pub search : Text
  pub health_filter : Option Health
  pub kind_filter : List Text
  pub selection_history : List Text
  pub graph : GraphState
  pub capacity : Option Capacity
  pub conn_state : ConnState
  pub pending_sel : Option Text
  pub live_data : ℕ
  pub refetches : ℕ
  pub summaries : List (Text × Text × NamespaceSummary)
  pub first_subscribe : Bool
  pub last_subscribed_ctx : Option Text
  -- The scope that the open stream was opened for.
  pub open_stream : Option (Text × Text)

-- What arrives on the stream.
pub data StreamEvent : Type 0 where
  snapshot : KGraph → StreamEvent
  patch : Patch → StreamEvent
  summary : NamespaceSummary → StreamEvent
  capacity : Capacity → StreamEvent
  error : StreamEvent

-- `lastSubscribedCtx !== null && lastSubscribedCtx !== c`
abbrev pub has_changed : Option Text → Text → Bool
has_changed none c = false
has_changed (some last) c = not (last == c)

-- The filters that do not survive a change of the subscription.
abbrev pub clear_filters : Client → Client
clear_filters s = record s {
  search = [];
  health_filter = none;
  kind_filter = [];
  selection_history = [];
}

-- The effect's body, for a context and a namespace that are both there.
unfoldable pub open_scope : Text → Text → Client → Client
open_scope c ns s =
    let changed = has_changed s.last_subscribed_ctx c in
    let kept = record s {
      last_subscribed_ctx = some c;
      selected_id = if changed then none else s.selected_id;
    } in
    let cleared = if s.first_subscribe then kept else clear_filters kept in
    record cleared {
      first_subscribe = false;
      graph = empty_state;
      capacity = none;
      conn_state = ConnState.connecting;
      open_stream = some (c, ns);
    }

-- The effect: the cleanup of its last run has closed the old stream.
unfoldable pub subscribe : Option Text → Option Text → Client → Client
subscribe ctx namespace s = elim (truthy ctx) [
  | none ↦ record s { open_stream = none }
  | some c ↦ (elim (truthy namespace) [
    | none ↦ record s { open_stream = none }
    | some ns ↦ open_scope c ns s
  ])
]

-- `capacity?.nodes ?? []`
abbrev pub capacity_nodes : Option Capacity → List KNode
capacity_nodes none = []
capacity_nodes (some cap) = elim cap.nodes [ none ↦ [] | some ns ↦ ns ]

-- The handler of a snapshot whose nodes are a list.
unfoldable pub take_snapshot : KGraph → List KNode → Client → Client
take_snapshot g nodes s =
    let sel =
      resolve_selection_on_snapshot (nodes ++ capacity_nodes s.capacity) s.selected_id
        s.pending_sel in
    record s {
      pending_sel = if sel.consumed_pending then none else s.pending_sel;
      graph = from_snapshot g;
      conn_state = ConnState.live;
      selected_id = sel.id;
      live_data = suc s.live_data;
    }

-- `connState() !== 'offline'`
abbrev pub is_offline : ConnState → Bool
is_offline ConnState.offline = true
is_offline ConnState.connecting = false
is_offline ConnState.live = false

-- The handlers given to `streamGraph(c, ns, …)`; `none` means that the handler throws.
unfoldable pub handle : Text → Text → StreamEvent → Client → Option Client
handle c ns (StreamEvent.snapshot g) s = elim g.nodes [
  | none ↦ none
  | some nodes ↦ some (take_snapshot g nodes s)
]
handle c ns (StreamEvent.patch p) s =
    some (record s { graph = apply_patch s.graph p; live_data = suc s.live_data })
handle c ns (StreamEvent.summary m) s = some (record s { summaries = (c, ns, m) ∷ s.summaries })
handle c ns (StreamEvent.capacity cap) s = some (record s { capacity = some cap })
handle c ns StreamEvent.error s = some (record s {
  refetches = if is_offline s.conn_state then s.refetches else suc s.refetches;
  conn_state = ConnState.offline;
})

-- The listener of an `EventSource`: a handler that throws leaves the state as it was.
unfoldable pub deliver : Text → Text → StreamEvent → Client → Client
deliver c ns ev s = elim (handle c ns ev s) [ none ↦ s | some t ↦ t ]

unfoldable pub deliver_all : Text → Text → List StreamEvent → Client → Client
deliver_all c ns [] s = s
deliver_all c ns (ev ∷ evs) s = deliver_all c ns evs (deliver c ns ev s)
