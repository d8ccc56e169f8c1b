-- ===== src/Tests/Graph.antt =====
-- The graph state at a small graph.
use kd.Common.{
  ◌≡◌, refl, true, not, ◌||◌, ◌&&◌, ◌↔◌, none, some, [], ◌∷◌, Text, text, text_eq, ◌==◌,
  if◌then◌else◌, lookup, contains, any, All, arith,
}
use kd.Types.{or_empty}
use kd.Graph.State.{
  edge_key, from_snapshot, apply_patch, Walk, spotlight_subtree, spotlight_neighbors,
}
use kd.Graph.State.Keys.{IsPlain}
use kd.Graph.State.View.{edge_keys, latest, lookup-apply_patch, contains-apply_patch}
use kd.Graph.State.Invariant.{Reached, IsConsistent, Reached-IsConsistent}
use kd.Graph.State.Spotlight.{Reach, joins}
use kd.Graph.State.Component.{spotlight_subtree_component}
use kd.Graph.State.Rounds.{touches}
use kd.Graph.State.Neighbors.{spotlight_neighbors_lem}
use kd.Graph.State.History.{GraphEvent, replayed, meaning, said, replayed-said}
use kd.Tests.{owns, mounts_config, snapshot, patch}

lookup-apply_patch_example :
    lookup (text "u3") (apply_patch (from_snapshot snapshot) patch).nodes ≡ (
      if contains (or_empty patch.remove_node_ids) (text "u3")
      then none
      else latest
          (text "u3")
          (or_empty patch.upsert_nodes)
          (lookup (text "u3") (from_snapshot snapshot).nodes))
lookup-apply_patch_example = lookup-apply_patch (from_snapshot snapshot) patch (text "u3")

contains-apply_patch_example :
    contains (edge_keys (apply_patch (from_snapshot snapshot) patch).edges) (edge_key owns) ≡ (
      contains (edge_keys (from_snapshot snapshot).edges) (edge_key owns)
        && not (contains (edge_keys (or_empty patch.remove_edges)) (edge_key owns))
      || contains (edge_keys (or_empty patch.upsert_edges)) (edge_key owns))
contains-apply_patch_example = contains-apply_patch (from_snapshot snapshot) patch (edge_key owns)

reached : Reached (apply_patch (from_snapshot snapshot) patch)
unfolding contains
reached = Reached.patch patch (Reached.snapshot snapshot (refl, tt))

Reached-IsConsistent_example : IsConsistent (apply_patch (from_snapshot snapshot) patch)
Reached-IsConsistent_example =
    Reached-IsConsistent {s = apply_patch (from_snapshot snapshot) patch} reached

plain : All IsPlain (owns ∷ mounts_config ∷ [])
plain = (
  record { from = ground arith; to = ground arith },
  (record { from = ground arith; to = ground arith }, tt),
)

spotlight_subtree_component_example :
    (t : Walk) × (spotlight_subtree (text "u1") (owns ∷ mounts_config ∷ []) ≡ some t)
    × ((v : Text)
        → (contains t.nodes v ≡ true) ↔ ∥ Reach (owns ∷ mounts_config ∷ []) (text "u1") v ∥₁)
spotlight_subtree_component_example =
    spotlight_subtree_component (text "u1") (owns ∷ mounts_config ∷ []) plain

spotlight_neighbors_lem_example :
    ((v : Text)
      → contains (spotlight_neighbors (text "u2") (owns ∷ mounts_config ∷ [])).nodes v
        ≡ (text "u2" == v || any (λ e. joins e (text "u2") v) (owns ∷ mounts_config ∷ [])))
    × ((k : Text)
        → contains (spotlight_neighbors (text "u2") (owns ∷ mounts_config ∷ [])).edges k
          ≡ any (λ e. touches (text "u2") e && edge_key e == k) (owns ∷ mounts_config ∷ []))
spotlight_neighbors_lem_example = spotlight_neighbors_lem (text "u2") (owns ∷ mounts_config ∷ [])

replayed-said_example :
    meaning (replayed (GraphEvent.patch patch ∷ GraphEvent.snapshot snapshot ∷ []))
    ≡ said (GraphEvent.patch patch ∷ GraphEvent.snapshot snapshot ∷ [])
replayed-said_example = replayed-said (GraphEvent.patch patch ∷ GraphEvent.snapshot snapshot ∷ [])
