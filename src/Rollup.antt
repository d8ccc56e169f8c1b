-- ===== src/Rollup.antt =====
-- web/src/loggable.ts: the pods below a resource, and the memos of web/src/selection.ts.
pub mod Rounds
pub mod Below
pub mod Steps
pub mod Pods
use kd.Common.{
  ℕ, zero, suc, ◌+◌, Bool, true, false, not, ◌&&◌, Option, none, some, List, [], ◌∷◌, ◌++◌, Text,
  text, text_eq, ◌==◌, if◌then◌else◌, is_nil, find?, lookup, insert, contains, add, length,
  Ordering,
}
use kd.Types.{KNode, Resources, ResourceUsage, or_empty, truthy}
use kd.Layout.Blocks.{push_at}
use kd.Usage.{WorkloadUsage, aggregate_workload_usage}

unfoldable pub add_owners : KNode → List Text → List (Text × List KNode) → List (Text × List KNode)
add_owners n [] children = children
add_owners n (owner ∷ owners) children = add_owners n owners (push_at owner n children)

unfoldable pub children_from : List KNode → List (Text × List KNode) → List (Text × List KNode)
children_from [] children = children
children_from (n ∷ ns) children = children_from ns (add_owners n (or_empty n.owner_uids) children)

unfoldable pub children_by_owner : List KNode → List (Text × List KNode)
children_by_owner nodes = children_from nodes []

-- The head of `stack` is its top.
pub record Walk : Type 0 where
  pub pods : List KNode
  pub seen : List Text
  pub stack : List Text

-- The body of the inner loop.
unfoldable pub visit : KNode → Walk → Walk
visit child w =
    if contains w.seen child.id
    then w
    else if child.kind == text "Pod"
    then record w { seen = add w.seen child.id; pods = w.pods ++ child ∷ [] }
    else record w { seen = add w.seen child.id; stack = child.id ∷ w.stack }

unfoldable pub visit_all : List KNode → Walk → Walk
visit_all [] w = w
visit_all (n ∷ ns) w = visit_all ns (visit n w)

-- The `while` loop; `none` means that the fuel ran out.
unfoldable pub walk : ℕ → List (Text × List KNode) → Walk → Option Walk
walk zero children_of w = if is_nil w.stack then some w else none
walk (suc fuel) children_of w = elim w.stack [
  | [] ↦ some w
  | id ∷ rest ↦
      walk fuel children_of
        (visit_all (or_empty (lookup id children_of)) (record w { stack = rest }))
]

abbrev pub begun : Text → Walk
begun root_id = record { pods = []; seen = []; stack = root_id ∷ [] }

unfoldable pub descendant_pods : Text → List KNode → Option (List KNode)
descendant_pods root_id nodes =
    (elim (walk (suc (length nodes)) (children_by_owner nodes) (begun root_id)) [
      | none ↦ none
      | some w ↦ some w.pods
    ])
