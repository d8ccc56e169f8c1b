-- ===== src/Spotlight.antt =====
-- web/src/components/topology/spotlight.ts: which nodes and edges of the canvas fade.
pub mod Candidates
use kd.Common.{
  ℕ, suc, ◌+◌, Bool, true, false, not, ◌&&◌, ◌||◌, Option, none, some, List, [], ◌∷◌, Text, text_eq,
  ◌==◌, if◌then◌else◌, is_nil, any, filter, lookup, insert, contains, add, trim, Ordering,
}
use kd.Types.{Health, KNode, KEdge, truthy, health_eq}
use kd.Graph.State.{Lit, edge_key, spotlight_subtree, spotlight_neighbors}
use kd.Layout.{PositionedNode}
use kd.Nav.{has_id, index_by_id, kind_passes, ordered_for_nav}
use kd.Search.{node_matches}
use kd.Controls.{FadeContext, is_node_faded}

pub data GroupBy : Type 0 where
  relationship nodes kind : GroupBy

-- What the component's accessors give.
pub record Source : Type 0 where
  pub graph_nodes : List KNode
  pub visible_nodes : List KNode
  pub display_edges : List KEdge
  pub layout_nodes : List PositionedNode
  pub selected_id : Option Text
  pub query : Text
  pub kind_filter : Option (List Text)
  pub health_filter : Option Health
  pub hover_id : Option Text
  pub group_by : Option GroupBy

abbrev pub rel_grouping : Option GroupBy → Bool
rel_grouping none = true
rel_grouping (some GroupBy.relationship) = true
rel_grouping (some GroupBy.kind) = false
rel_grouping (some GroupBy.nodes) = false

unfoldable pub subject_id : Source → Option Text
subject_id s = elim (truthy s.selected_id) [
  | some id ↦ some id
  | none ↦ if rel_grouping s.group_by then truthy s.hover_id else none
]

-- The spotlight around a node that is there, by the layout. The walk over the component always ends.
unfoldable pub spotlight_for : Option GroupBy → Text → List KEdge → Option Lit
spotlight_for (some GroupBy.kind) id edges = none
spotlight_for (some GroupBy.nodes) id edges = elim (spotlight_subtree id edges) [
  | none ↦ none
  | some w ↦ some (record { nodes = w.nodes; edges = w.seen })
]
spotlight_for (some GroupBy.relationship) id edges = some (spotlight_neighbors id edges)
spotlight_for none id edges = some (spotlight_neighbors id edges)

unfoldable pub related : Source → Option Lit
related s = elim (subject_id s) [
  | none ↦ none
  | some id ↦
      if any (has_id id) s.graph_nodes then spotlight_for s.group_by id s.display_edges else none
]

abbrev pub related_ids : Option Lit → Option (List Text)
related_ids none = none
related_ids (some l) = some l.nodes

-- The filter, where it is active.
unfoldable pub active_kinds : Source → Option (List Text)
active_kinds s = elim s.kind_filter [
  | none ↦ none
  | some kinds ↦ if is_nil kinds then none else some kinds
]

unfoldable pub node_kind_ok : Source → Text → Bool
node_kind_ok s k = elim (active_kinds s) [ none ↦ true | some kinds ↦ contains kinds k ]

-- `nodeById`, over the entries that are there.
unfoldable pub index_layout : List PositionedNode → List (Text × KNode) → List (Text × KNode)
index_layout [] entries = entries
index_layout (n ∷ ns) entries = index_layout ns (insert n.node.id n.node entries)

unfoldable pub node_by_id : Source → List (Text × KNode)
node_by_id s = index_layout s.layout_nodes []

abbrev pub passes_kind : Source → Option KNode → Bool
passes_kind s none = false
passes_kind s (some n) = node_kind_ok s n.kind

abbrev pub is_end : Option Text → KEdge → Bool
is_end none e = false
is_end (some id) e = e.from == id || e.to == id

module _ (to_lower_case : Text → Text) where
  -- The set of the loop, so far.
  unfoldable pub collect_matches : Source → Text → List Text → List KNode → List Text
  collect_matches s q m [] = m
  collect_matches s q m (n ∷ ns) =
      collect_matches s q
        (if kind_passes s.kind_filter n.kind && node_matches to_lower_case n q
          then add m n.id
          else m)
        ns

  unfoldable pub matches : Source → Option (List Text)
  matches s =
      let q = trim s.query in
      if is_nil q then none else some (collect_matches s q [] s.visible_nodes)

  unfoldable pub node_faded : Source → KNode → Bool
  node_faded s n = is_node_faded n (record {
    selected_id = s.selected_id;
    kind_ok = node_kind_ok s;
    match_ids = matches s;
    health_filter = s.health_filter;
    related_ids = related_ids (related s);
  })

  unfoldable pub edge_faded : Source → KEdge → Bool
  edge_faded s e = elim (matches s) [
    | some m ↦ not (contains m e.from && contains m e.to)
    | none ↦ (elim s.health_filter [
      | some _ ↦ true
      | none ↦ (elim (active_kinds s) [
        | some _ ↦ not (
            passes_kind s (lookup e.from (node_by_id s))
            && passes_kind s (lookup e.to (node_by_id s)))
        | none ↦ (elim (related s) [ some r ↦ not (contains r.edges (edge_key e)) | none ↦ false ])
      ])
    ])
  ]

  abbrev pub is_filtered : Source → Bool
  is_filtered s =
      (elim (matches s) [ none ↦ false | some _ ↦ true ])
      || (elim s.health_filter [ none ↦ false | some _ ↦ true ])
      || (elim (active_kinds s) [ none ↦ false | some _ ↦ true ])

  unfoldable pub edge_adjacent : Source → KEdge → Bool
  edge_adjacent s e = if is_filtered s then false else is_end (subject_id s) e

  unfoldable pub edge_flow_lit : Source → KEdge → Bool
  edge_flow_lit s e = if is_filtered s then false else is_end (truthy s.selected_id) e

  module _ (locale_compare numeric_compare : Text → Text → Ordering) where
    unfoldable pub match_ordered : Source → List KNode
    match_ordered s = elim (matches s) [
      | none ↦ []
      | some m ↦
          if is_nil m
          then []
          else ordered_for_nav locale_compare numeric_compare
              (filter (λ n. contains m n.id) s.graph_nodes)
    ]

    -- The place of the selection among the matches, from 1; 0 where it is not one of them.
    unfoldable pub match_pos : Source → ℕ
    match_pos s = elim s.selected_id [
      | none ↦ 0
      | some id ↦ (elim (index_by_id id 0 (match_ordered s)) [ none ↦ 0 | some i ↦ suc i ])
    ]
