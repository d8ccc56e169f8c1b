-- ===== src/Tests/Canvas.antt =====
-- Folds and kind chips, at small graphs.
use kd.Common.{
  filter, Occurs, ◌≡◌, refl, true, false, none, some, List, [], ◌∷◌, map, Option, Text, text,
  text_eq, lookup, ◌++◌, ◌==◌, ◌↔◌, All, lower_unit, Ordering, sort, place, place_at, insert,
  contains, add, decimal,
}
use kd.Types.{health_eq, Health, EdgeType, KNode, KEdge}
use kd.Collapse.{split_for_fold}
use kd.Layout.{PositionedNode, card, pill_node, pill_id}
use kd.Layout.Blocks.{collapse_hub_leaves}
use kd.Layout.Siblings.{
  Rewritten, fold_sibling_subtrees, consider_parents, consider_groups, consider_group, rewrite,
  fold_group, members_from, index_ids, child_edges_from, descendants_of, descend, descend_edges,
  descend_edge, root_set, add_ids, set_frames,
}
use kd.Layout.Siblings.Pills.{IsFolded, fold_sibling_subtrees_lem}
use kd.Layout.{FoldNode}
use kd.Layout.Siblings.{plain_node}
use kd.Layout.Hubs.{find_hubs}
use kd.Layout.Hubs.Claims.{is_childless}
use kd.Layout.Hubs.Once.{Once, find_hubs-Once}
use kd.KindStats.{kind_stats}
use kd.KindStats.Tally.{represented}
use kd.KindStats.Hub.{all_cells, collapse_hub_leaves-kind_stats}
use mathlib.Core.List.{Perm}
use kd.Nav.{matches_all}
use kd.Search.{node_matches}
use kd.Spotlight.{GroupBy, Source, node_faded}
use kd.Spotlight.Candidates.{candidate-lit}
use kd.Exit.{
  ExitEvent, no_exit, card_ids, is_card, has_left, start_timers, on_layout, step, run, render_nodes,
}
use kd.Exit.Leaving.{IsTimed, time_out, run-leaves}
use kd.Rollup.{descendant_pods}
use kd.Rollup.Rounds.{ids}
use kd.Rollup.Below.{is_pod, IsTyped, Below}
use kd.Rollup.Pods.{PodBelow, descendant_pods_lem}
use kd.Layout.Components.{
  Groups, group_at, connected_components, unite, union, find, climb, compress, own_roots,
  place_nodes, place_edges,
}
use kd.Layout.Components.Linked.{Linked}
use kd.Layout.Components.Grouped.{node_ids, connected_components_lem}
use kd.Tests.{owns, config, node, edge, by_length, web, pod}

abbrev run_node : Text → KNode
run_node id = node id (text "Job") id Health.healthy

abbrev task : Text → KNode
task id = node id (text "Pod") id Health.healthy

-- A parent of six jobs, of which the third has six pods, of which one owns something.
abbrev nested : List KNode
nested =
    node (text "p") (text "CronJob") (text "p") Health.healthy
    ∷ map run_node (text "a" ∷ text "b" ∷ text "c" ∷ text "d" ∷ text "e" ∷ text "f" ∷ [])

abbrev owns_edge : Text → Text → KEdge
owns_edge from to = edge from to EdgeType.owner_reference

abbrev nested_nodes : List KNode
nested_nodes =
    nested
    ++ map task (text "t" ∷ text "u" ∷ text "v" ∷ text "w" ∷ text "x" ∷ text "y" ∷ text "z" ∷ [])

abbrev nested_edges : List KEdge
nested_edges =
    map (owns_edge (text "p"))
      (text "a" ∷ text "b" ∷ text "c" ∷ text "d" ∷ text "e" ∷ text "f" ∷ [])
    ++ map (owns_edge (text "c"))
        (text "t" ∷ text "u" ∷ text "v" ∷ text "w" ∷ text "x" ∷ text "y" ∷ [])
    ++ owns_edge (text "t") (text "z") ∷ []

abbrev by_name : KNode → KNode → Ordering
by_name a b = by_length a.name b.name

abbrev result_edges : Option Rewritten → List (Text × Text)
result_edges none = []
result_edges (some r) = map (λ e. (e.from, e.to)) r.edges

-- The third job is folded away with its pods, and its pods get a pill of their own: the edge to it
-- comes from a node that is gone.
stray_edge :
    contains
      (map
        (λ e. e.0)
        (result_edges (fold_sibling_subtrees by_name nested_nodes nested_edges [] none)))
      (text "c")
    ≡ true
unfolding fold_sibling_subtrees consider_parents consider_groups consider_group rewrite fold_group
    members_from index_ids child_edges_from descendants_of descend descend_edges descend_edge
    root_set add_ids set_frames split_for_fold sort place place_at lookup insert contains add
    pill_node pill_id decimal
stray_edge = refl

fold_sibling_subtrees_lem_example :
    (r : Rewritten) × (fold_sibling_subtrees by_name nested_nodes nested_edges [] none ≡ some r)
    × IsFolded nested_nodes nested_edges r
fold_sibling_subtrees_lem_example =
    fold_sibling_subtrees_lem by_name nested_nodes nested_edges [] none

collapse_hub_leaves-kind_stats_example :
    let cells =
      all_cells
        (collapse_hub_leaves by_length by_name
          (text "p")
          nested_nodes
          nested_edges
          []
          none).blocks in
    Perm (represented cells) nested_nodes
    × ((k : Text)
        → lookup k (kind_stats cells) ≡ lookup k (kind_stats (map (card none) nested_nodes)))
collapse_hub_leaves-kind_stats_example =
    collapse_hub_leaves-kind_stats by_length by_name (text "p") nested_edges [] none nested_nodes

-- A search for the pod, with a filter for degraded nodes.
abbrev canvas : Source
canvas = record {
  graph_nodes = web ∷ pod ∷ [];
  visible_nodes = web ∷ pod ∷ [];
  display_edges = [];
  layout_nodes = [];
  selected_id = none;
  query = text " WEB-0";
  kind_filter = some (text "Pod" ∷ []);
  health_filter = some Health.degraded;
  hover_id = none;
  group_by = some GroupBy.nodes;
}

candidate-lit_example : node_faded (map lower_unit) canvas pod ≡ false
unfolding matches_all contains kd.Common.trim kd.Common.is_space node_matches kd.Search.match_halves
    kd.Search.cut_slash kd.Search.plain_match kd.Common.includes
candidate-lit_example = candidate-lit (map lower_unit) canvas pod (1, refl) refl refl

abbrev owned : KNode
owned = record (task (text "t")) { owner_uids = some (text "a" ∷ []) }

abbrev owner : KNode
owner = record (run_node (text "a")) { owner_uids = some (text "p" ∷ []) }

owned-IsTyped : IsTyped (owned ∷ owner ∷ [])
owned-IsTyped = ((λ h. refl), ((λ h. cc), tt))

descendant_pods_lem_example :
    (pods : List KNode) × (descendant_pods (text "p") (owned ∷ owner ∷ []) ≡ some pods)
    × All (λ n. (is_pod n ≡ true) × Below (owned ∷ owner ∷ []) (text "p") n) pods
    × ((k : Text)
        → (contains (ids pods) k ≡ true) ↔ ∥ PodBelow (owned ∷ owner ∷ []) (text "p") k ∥₁)
descendant_pods_lem_example = descendant_pods_lem (text "p") (owned ∷ owner ∷ []) owned-IsTyped

abbrev parts : List FoldNode
parts = map plain_node nested_nodes

find_hubs-Once_example :
    let found = find_hubs by_length by_name nested_edges [] none parts in
    Once found × ((k : Text) → contains found.wrapped k ≡ true → is_childless nested_edges k ≡ true)
find_hubs-Once_example = find_hubs-Once by_length by_name nested_edges [] none parts

abbrev drawn : List PositionedNode
drawn = map (card none) (web ∷ pod ∷ [])

-- The pod leaves, and comes back before its timer ends.
abbrev back_again : List ExitEvent
back_again =
    ExitEvent.layout drawn
    ∷ ExitEvent.layout (map (card none) (web ∷ []))
    ∷ ExitEvent.layout drawn
    ∷ []

run-leaves_example :
    let e = run back_again no_exit in
    IsTimed e
    × ((time_out e.timers e).exiting ≡ [])
    × ((cur : List PositionedNode) (n : PositionedNode)
        → Occurs n e.prev_positioned
        → is_card n ≡ true
        → contains (card_ids cur) n.node.id ≡ false
        → contains (card_ids (on_layout cur e).exiting) n.node.id ≡ true)
run-leaves_example = run-leaves back_again

-- It is then drawn twice.
twice :
    card_ids (render_nodes none drawn (run back_again no_exit))
    ≡ text "u1" ∷ text "u2" ∷ text "u2" ∷ []
unfolding run step on_layout has_left start_timers render_nodes contains add
twice = refl

abbrev linked_nodes : List KNode
linked_nodes = web ∷ config ∷ pod ∷ []

connected_components_lem_example :
    (by_root : Groups) × (root : Text → Text) × (connected_components linked_nodes (owns ∷ [])
      ≡ some (map (λ g. g.1) by_root))
    × ((r : Text) → (group_at r by_root).nodes ≡ filter (λ n. root n.id == r) linked_nodes)
    × ((x y : Text)
        → contains (node_ids linked_nodes) x ≡ true
        → contains (node_ids linked_nodes) y ≡ true
        → (root x ≡ root y) ↔ Linked (owns ∷ []) x y)
unfolding contains
connected_components_lem_example =
    connected_components_lem linked_nodes (owns ∷ []) ((refl, refl), tt)

two_trees :
    (elim (connected_components linked_nodes (owns ∷ [])) [
      | none ↦ []
      | some groups ↦ map (λ g. node_ids g.nodes) groups
    ])
    ≡ (text "u1" ∷ text "u2" ∷ []) ∷ (text "u3" ∷ []) ∷ []
unfolding connected_components unite union find climb compress own_roots place_nodes place_edges
    lookup insert
two_trees = refl
