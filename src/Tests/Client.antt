-- ===== src/Tests/Client.antt =====
-- Namespaces, subscriptions and streams, at a small cluster.
use kd.Common.{
  suc, ◌+◌, ◌≤◌, min, text_beq_iff, ◌%◌, ◌≡◌, ◌≢◌, refl, true, false, none, some, List, [], ◌∷◌,
  map, text, text_eq, if◌then◌else◌, All, length, get_elem?, Occurs, sort, place, place_at,
}
use kd.Types.{Health}
use kd.Namespaces.{
  NamespaceInfo, is_text, is_real, compare_namespaces, most_troubled, troubled_namespaces,
  next_troubled,
}
use kd.Namespaces.Landing.{IsNoLessTroubled, most_troubled-first}
use kd.Namespaces.Cycle.{next_troubled-cycle}
use kd.Namespaces.Live.{
  Event, Session, run, opened, accept_push, merged_namespaces, merged-after-push, namespace_list,
}
use kd.Namespaces.Rows.{after, current_ctx, told, row, merged_namespaces-told}
use kd.Graph.State.{from_snapshot}
use kd.Health.{health_severity}
use kd.Subscription.{Client, ConnState, StreamEvent, deliver_all, open_scope}
use kd.Subscription.Said.{graph_events, connection, deliver_all-said}
use kd.Graph.State.History.{meaning, said}
use kd.Subscription.Stream.{errors, snapshots, deliver_all-refetches}
use kd.Watchdog.{Happening, Signal, watched_event_source, happen_all, connect}
use kd.Watchdog.Liveness.{IsWatched, happen_all-IsWatched}
use kd.Tests.{snapshot, patch, by_length, by_length-IsComparator}

abbrev shop : NamespaceInfo
shop = record { name = text "shop"; health = Health.degraded; non_ready = some 2 }

abbrev docs : NamespaceInfo
docs = record { name = text "docs"; health = Health.progressing; non_ready = none }

abbrev spaces : List NamespaceInfo
spaces = docs ∷ shop ∷ []

most : most_troubled by_length spaces ≡ some shop
unfolding most_troubled sort place place_at compare_namespaces health_severity
most = refl

head : get_elem? (troubled_namespaces by_length spaces) 0 ≡ some shop
unfolding troubled_namespaces sort place place_at compare_namespaces health_severity
head = refl

most_troubled-first_example :
    (is_real shop ≡ true)
    × Occurs shop spaces
    × All (λ n. is_real n ≡ true → IsNoLessTroubled by_length shop n) spaces
most_troubled-first_example = most_troubled-first by_length by_length-IsComparator spaces shop most

other_name : text "shop" ≢ text "docs"
other_name h = let k : false ≡ true = (text_beq_iff (text "shop") (text "docs")).1 h in cc

next_troubled-cycle_example :
    next_troubled by_length spaces (some (text "shop"))
    ≡ get_elem?
        (troubled_namespaces by_length spaces)
        (1 % length (troubled_namespaces by_length spaces))
next_troubled-cycle_example =
    next_troubled-cycle by_length spaces 0 shop ((other_name, tt), (tt, tt)) head

abbrev before : List Event
before =
    Event.push (text "c") spaces ∷ Event.summary (text "c") (text "docs") Health.healthy none ∷ []

merged-after-push_example :
    merged_namespaces (accept_push (text "c") spaces (run before (opened (some (text "c")))))
    ≡ (if is_text (run before (opened (some (text "c")))).ctx (text "c") then spaces else [])
merged-after-push_example = merged-after-push before (some (text "c")) (text "c") spaces

-- The newest event first: the summary of another context is not told.
abbrev history : List Event
history =
    Event.summary (text "d") (text "docs") Health.degraded none
    ∷ Event.summary (text "c") (text "docs") Health.healthy none
    ∷ Event.push (text "c") spaces
    ∷ []

merged_namespaces-told_example :
    merged_namespaces (after (some (text "c")) history)
    ≡ map
        (λ n. row (current_ctx (some (text "c")) history) (told (some (text "c")) n.name history) n)
        (namespace_list (after (some (text "c")) history))
merged_namespaces-told_example = merged_namespaces-told (some (text "c")) history

told_docs :
    told (some (text "c")) (text "docs") history
    ≡ some (record { ctx = text "c"; health = Health.healthy; non_ready = none })
told_docs = refl

abbrev polled : Session
polled = record {
  ctx = some (text "c");
  ns_data = some (record { for_ctx = text "c"; list = spaces });
  ns_received = true;
  ns_errored = false;
  poll_gen = 1;
  live_by_ns = [];
}

abbrev client : Client
client = record {
  selected_id = some (text "u2");
  search = [];
  health_filter = none;
  kind_filter = [];
  selection_history = [];
  graph = from_snapshot snapshot;
  capacity = none;
  conn_state = ConnState.connecting;
  pending_sel = none;
  live_data = 0;
  refetches = 0;
  summaries = [];
  first_subscribe = true;
  last_subscribed_ctx = none;
  open_stream = none;
}

abbrev events : List StreamEvent
events =
    StreamEvent.snapshot snapshot
    ∷ StreamEvent.patch patch
    ∷ StreamEvent.error
    ∷ StreamEvent.error
    ∷ []

deliver_all-said_example :
    let t =
      deliver_all (text "c") (text "shop") events (open_scope (text "c") (text "shop") client) in
    (meaning t.graph ≡ said (graph_events events []))
    × (t.conn_state ≡ connection events ConnState.connecting)
deliver_all-said_example = deliver_all-said (text "c") (text "shop") events client

deliver_all-refetches_example :
    let t =
      deliver_all (text "c") (text "shop") events (open_scope (text "c") (text "shop") client) in
    (client.refetches + min 1 (errors events) ≤ t.refetches)
    × (t.refetches ≤ client.refetches + min (errors events) (suc (snapshots events)))
deliver_all-refetches_example = deliver_all-refetches (text "c") (text "shop") events client

abbrev happenings : List Happening
happenings = Happening.timeout 50000 ∷ Happening.report 1 Signal.opened ∷ Happening.close ∷ []

happen_all-IsWatched_example : IsWatched (happen_all happenings watched_event_source)
happen_all-IsWatched_example = happen_all-IsWatched happenings

still_open : (happen_all [] watched_event_source).closed ≡ false
unfolding happen_all watched_event_source connect
still_open = refl
