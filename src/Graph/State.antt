-- ===== src/Graph/State.antt =====
-- web/src/graphState.ts: the reducer of the snapshot and patch protocol, and the spotlights.
pub mod Keys
pub mod View
pub mod History
pub mod Invariant
pub mod Spotlight
pub mod Rounds
pub mod Component
pub mod Neighbors
use kd.Common.{
  ℕ, zero, suc, ◌+◌, ◌≡◌, refl, Bool, true, false, not, ◌||◌, Option, none, some, List, [], ◌∷◌,
  ◌++◌, map, Text, text, text_eq, ◌==◌, if◌then◌else◌, lookup, insert, erase, contains, add, filter,
  length,
}
use kd.Types.{KNode, KEdge, KGraph, Patch, edge_type_name, or_empty}

pub record GraphState : Type 0 where
  pub nodes : List (Text × KNode)
  pub edges : List KEdge

unfoldable pub empty_state : GraphState
empty_state = record { nodes = []; edges = [] }

-- `[a, b, c].join('|')`
unfoldable pub edge_key : KEdge → Text
edge_key e = e.from ++ b'|' ∷ (e.to ++ b'|' ∷ edge_type_name e.type)

-- `for (const n of ns) nodes[n.id] = n`
unfoldable pub put_nodes : List (Text × KNode) → List KNode → List (Text × KNode)
put_nodes nodes [] = nodes
put_nodes nodes (n ∷ ns) = put_nodes (insert n.id n nodes) ns

-- `for (const id of ids) delete nodes[id]`
unfoldable pub delete_nodes : List (Text × KNode) → List Text → List (Text × KNode)
delete_nodes nodes [] = nodes
delete_nodes nodes (id ∷ ids) = delete_nodes (erase id nodes) ids

unfoldable pub from_snapshot : KGraph → GraphState
from_snapshot g = record { nodes = put_nodes [] (or_empty g.nodes); edges = or_empty g.edges }

-- The last loop of `applyPatch`; `present` is the set of the keys of `edges`.
unfoldable pub push_edges : List KEdge → List Text → List KEdge → List KEdge
push_edges edges present [] = edges
push_edges edges present (e ∷ es) =
    let k = edge_key e in
    let had = contains present k in
    push_edges (if had then edges else edges ++ e ∷ []) (if had then present else add present k) es

unfoldable pub apply_patch : GraphState → Patch → GraphState
apply_patch state p =
    let nodes =
      delete_nodes (put_nodes state.nodes (or_empty p.upsert_nodes)) (or_empty p.remove_node_ids) in
    let removed = map edge_key (or_empty p.remove_edges) in
    let edges = filter (λ e. not (contains removed (edge_key e))) state.edges in
    record {
      nodes = nodes;
      edges = push_edges edges (map edge_key edges) (or_empty p.upsert_edges);
    }

-- A pair of a node set and a set of edge keys.
pub record Lit : Type 0 where
  pub nodes : List Text
  pub edges : List Text

pub record Walk : Type 0 where
  pub nodes : List Text
  pub seen : List Text
  pub queue : List Text

-- `e.from === cur ? e.to : e.from`
abbrev pub other_end : Text → KEdge → Text
other_end cur e = if e.from == cur then e.to else e.from

-- The body of the inner loop of `spotlightSubtree`.
unfoldable pub visit : Text → KEdge → Walk → Walk
visit cur e w =
    let k = edge_key e in
    let next = other_end cur e in
    let marked = record w { seen = add w.seen k } in
    if contains w.seen k
    then w
    else if e.from == cur || e.to == cur
    then (if contains w.nodes next
        then marked
        else record { nodes = add w.nodes next; seen = add w.seen k; queue = w.queue ++ next ∷ [] })
    else w

unfoldable pub scan : Text → List KEdge → Walk → Walk
scan cur [] w = w
scan cur (e ∷ es) w = scan cur es (visit cur e w)

-- The `while` loop; `none` means that the fuel ran out.
unfoldable pub walk : ℕ → List KEdge → Walk → Option Walk
walk zero edges w = elim w.queue [ [] ↦ some w | _ ∷ _ ↦ none ]
walk (suc fuel) edges w = elim w.queue [
  | [] ↦ some w
  | cur ∷ rest ↦ walk fuel edges (scan cur edges (record w { queue = rest }))
]

abbrev pub start : Text → Walk
start id = record { nodes = id ∷ []; seen = []; queue = id ∷ [] }

unfoldable pub spotlight_subtree : Text → List KEdge → Option Walk
spotlight_subtree id edges = walk (suc (length edges)) edges (start id)

-- The loop of `spotlightNeighbors`, and its body.
unfoldable pub light_edge : Text → KEdge → Lit → Lit
light_edge id e l =
    if e.from == id || e.to == id
    then record { nodes = add l.nodes (other_end id e); edges = add l.edges (edge_key e) }
    else l

unfoldable pub neighbors_from : Text → List KEdge → Lit → Lit
neighbors_from id [] l = l
neighbors_from id (e ∷ es) l = neighbors_from id es (light_edge id e l)

unfoldable pub spotlight_neighbors : Text → List KEdge → Lit
spotlight_neighbors id edges = neighbors_from id edges (record { nodes = id ∷ []; edges = [] })
