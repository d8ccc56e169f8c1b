-- ===== src/Graph/State/History.antt =====
-- The state of web/src/graphState.ts as what its stream of events says, the newest event first.
use kd.Common.{
  ◌≡◌, refl, ◌∙◌, Bool, true, false, Option, none, some, List, [], ◌∷◌, Text, text_eq, ◌==◌,
  if◌then◌else◌, lookup, contains, arith,
}
use kd.Types.{KNode, KGraph, Patch, or_empty}
use kd.Graph.State.{GraphState, empty_state, from_snapshot, apply_patch}
use kd.Graph.State.View.{
  edge_keys, latest, lookup-put_nodes, lookup-apply_patch, contains-apply_patch,
}

pub data GraphEvent : Type 0 where
  snapshot : KGraph → GraphEvent
  patch : Patch → GraphEvent

-- What the client holds; the head of the history is the newest event.
abbrev pub replayed : List GraphEvent → GraphState
replayed [] = empty_state
replayed (snapshot g ∷ before) = from_snapshot g
replayed (patch p ∷ before) = apply_patch (replayed before) p

-- The last node of the list with the identifier.
abbrev pub last_of : Text → List KNode → Option KNode
last_of id [] = none
last_of id (n ∷ ns) = elim (last_of id ns) [
  | some m ↦ some m
  | none ↦ if n.id == id then some n else none
]

-- What an event says of a node: `none` for nothing, `some none` for its absence.
abbrev pub says_of_node : Text → GraphEvent → Option (Option KNode)
says_of_node id (snapshot g) = some (last_of id (or_empty g.nodes))
says_of_node id (patch p) =
    if contains (or_empty p.remove_node_ids) id
    then some none
    else elim (last_of id (or_empty p.upsert_nodes)) [ none ↦ none | some n ↦ some (some n) ]

abbrev pub says_of_edge : Text → GraphEvent → Option Bool
says_of_edge key (snapshot g) = some (contains (edge_keys (or_empty g.edges)) key)
says_of_edge key (patch p) =
    if contains (edge_keys (or_empty p.upsert_edges)) key
    then some true
    else if contains (edge_keys (or_empty p.remove_edges)) key
    then some false
    else none

-- The newest event that says something decides.
abbrev pub newest {ℓ} : {A : Type ℓ} → A → (GraphEvent → Option A) → List GraphEvent → A
newest start says [] = start
newest start says (e ∷ before) = elim (says e) [ none ↦ newest start says before | some a ↦ a ]

-- The graph as a map of nodes and a set of edges, without their order.
pub record Meaning : Type 0 where
  pub node : Text → Option KNode
  pub edge : Text → Bool

abbrev pub meaning : GraphState → Meaning
meaning s = record {
  node = λ id. lookup id s.nodes;
  edge = λ key. contains (edge_keys s.edges) key;
}

abbrev pub said : List GraphEvent → Meaning
said history = record {
  node = λ id. newest none (says_of_node id) history;
  edge = λ key. newest false (says_of_edge key) history;
}

latest_lem :
    (id : Text) (ns : List KNode) (old : Option KNode)
    → latest id ns old ≡ (elim (last_of id ns) [ none ↦ old | some n ↦ some n ])
latest_lem id [] old = refl
latest_lem id (n ∷ ns) old = latest_lem id ns (if n.id == id then some n else old) ∙ (ground arith)

node_said :
    (history : List GraphEvent) (id : Text)
    → lookup id (replayed history).nodes ≡ newest none (says_of_node id) history
unfolding empty_state from_snapshot lookup
node_said [] id = refl
node_said (snapshot g ∷ before) id =
    lookup-put_nodes id [] (or_empty g.nodes) ∙ latest_lem id (or_empty g.nodes) none ∙ ground arith
node_said (patch p ∷ before) id = ground (
  arith,
  lookup-apply_patch (replayed before) p id,
  latest_lem id (or_empty p.upsert_nodes) (lookup id (replayed before).nodes),
  node_said before id,
)

edge_said :
    (history : List GraphEvent) (key : Text)
    → contains (edge_keys (replayed history).edges) key ≡ newest false (says_of_edge key) history
unfolding empty_state from_snapshot contains
edge_said [] key = refl
edge_said (snapshot g ∷ before) key = refl
edge_said (patch p ∷ before) key =
    ground (arith, contains-apply_patch (replayed before) p key, edge_said before key)

-- After any stream of snapshots and patches the state, read as a map of nodes and a set of edge keys, is
-- what the newest event says that mentions the node or the edge: a snapshot mentions them all; a patch
-- says that a node it removes is absent, whether or not it upserts it, and that an edge it upserts is
-- present, whether or not it removes it; what no event mentions is absent.
pub replayed-said : (history : List GraphEvent) → meaning (replayed history) ≡ said history
replayed-said history =
    λ i. record { node = λ id. node_said history id i; edge = λ key. edge_said history key i }
