-- ===== src/Selection.antt =====
-- web/src/selection.ts: what the drawer shows of the selected resource.
pub mod Drawer
use kd.Common.{
  ℕ, Bool, true, false, not, ◌&&◌, ◌||◌, Option, none, some, List, [], ◌∷◌, Text, text, text_eq,
  ◌==◌, if◌then◌else◌, lookup, Ordering,
}
use kd.Types.{KNode, Resources, ResourceUsage, truthy}
use kd.Graph.State.{GraphState}
use kd.Layout.Siblings.{index_ids}
use kd.Usage.{WorkloadUsage, aggregate_workload_usage}
use kd.Rollup.{descendant_pods}
use kd.Bars.{host_node_capacity}

-- The capacity feed, with the usage by identifier where there is one.
pub record CapacityFeed : Type 0 where
  pub nodes : List KNode
  pub usage : Option (List (Text × ResourceUsage))

-- What the accessors give.
pub record Details : Type 0 where
  pub selected_id : Option Text
  pub graph : GraphState
  pub capacity : Option CapacityFeed
  pub nodes : List KNode

abbrev pub feed_nodes : Option CapacityFeed → List KNode
feed_nodes none = []
feed_nodes (some c) = c.nodes

abbrev pub usage_items : Option CapacityFeed → Option (List (Text × ResourceUsage))
usage_items none = none
usage_items (some c) = c.usage

unfoldable pub cap_by_id : Details → List (Text × KNode)
cap_by_id s = index_ids (feed_nodes s.capacity) []

unfoldable pub selected_node : Details → Option KNode
selected_node s = elim (truthy s.selected_id) [
  | none ↦ none
  | some id ↦ (elim (lookup id s.graph.nodes) [ some n ↦ some n | none ↦ lookup id (cap_by_id s) ])
]

abbrev pub usage_at : Text → Option (List (Text × ResourceUsage)) → Option ResourceUsage
usage_at id none = none
usage_at id (some items) = lookup id items

unfoldable pub selected_usage : Details → Option ResourceUsage
selected_usage s = elim (selected_node s) [
  | none ↦ none
  | some n ↦ usage_at n.id (usage_items s.capacity)
]

-- `localeCompare` of the host; the walk over the owned nodes always ends.
unfoldable pub selected_workload_usage : (Text → Text → Ordering) → Details → Option WorkloadUsage
selected_workload_usage locale_compare s = elim (selected_node s) [
  | none ↦ none
  | some n ↦
      if n.kind == text "Pod" || n.kind == text "Node"
      then none
      else (elim (descendant_pods n.id s.nodes) [
        | none ↦ none
        | some pods ↦ aggregate_workload_usage locale_compare pods (usage_items s.capacity)
      ])
]

unfoldable pub selected_host_capacity : Details → Option Resources
selected_host_capacity s = elim (selected_node s) [
  | none ↦ none
  | some n ↦
      if n.kind == text "Pod" then host_node_capacity n.host (feed_nodes s.capacity) else none
]

-- `id && lastResolved && lastResolved.id === id ? lastResolved : null`
abbrev pub last_if : Option Text → Option KNode → Option KNode
last_if none last = none
last_if (some id) none = none
last_if (some id) (some n) = if n.id == id then some n else none

-- A run of the memo `drawerNode`: the node, and `lastResolved` after it.
unfoldable pub drawer_node : Option KNode → Details → Option KNode × Option KNode
drawer_node last s = elim (selected_node s) [
  | some n ↦ (some n, some n)
  | none ↦ (last_if (truthy s.selected_id) last, last)
]

abbrev pub is_set {ℓ} : {A : Type ℓ} → Option A → Bool
is_set none = false
is_set (some _) = true

unfoldable pub selection_deleted : Option KNode → Details → Bool
selection_deleted last s = is_set (drawer_node last s).0 && not (is_set (selected_node s))
