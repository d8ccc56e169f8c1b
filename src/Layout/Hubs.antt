-- ===== src/Layout/Hubs.antt =====
-- `findHubs` of web/src/layout/hubs.ts: the parents whose childless children are laid as blocks.
pub mod Claims
pub mod Once
use kd.Common.{
  ℕ, ◌+◌, Bool, true, false, not, ◌&&◌, ◌||◌, Option, none, some, List, [], ◌∷◌, ◌++◌, Text,
  text_eq, nat_eq, ◌==◌, if◌then◌else◌, ltb, lookup, insert, add, length, text_ltb, Ordering, sort,
}
use kd.Types.{EdgeType, KNode, KEdge, truthy, edge_type_eq}
use kd.Layout.{FoldNode, collapse_kind}
use kd.Layout.Blocks.{LeafBlock, HubPill, push_at, collapse_hub_leaves}

abbrev pub fanout_min : ℕ
fanout_min = 5

pub record Hub : Type 0 where
  pub id : Text
  pub blocks : List LeafBlock
  pub pills : List HubPill

pub record Hubs : Type 0 where
  pub hubs : List Hub
  pub wrapped : List Text

-- `new Map(nodes.map((n) => [n.id, n]))`, over the entries that are there.
unfoldable pub index_nodes : List FoldNode → List (Text × FoldNode) → List (Text × FoldNode)
index_nodes [] entries = entries
index_nodes (n ∷ ns) entries = index_nodes ns (insert n.node.id n entries)

abbrev pub degree : Text → List (Text × ℕ) → ℕ
degree id outdeg = elim (lookup id outdeg) [ none ↦ 0 | some d ↦ d ]

unfoldable pub count_out : List KEdge → List (Text × ℕ) → List (Text × ℕ)
count_out [] outdeg = outdeg
count_out (e ∷ es) outdeg = count_out es (insert e.from (degree e.from outdeg + 1) outdeg)

-- Not a pill, not framed by another fold, and without children.
unfoldable pub is_wrappable : List (Text × ℕ) → Text → Option FoldNode → Bool
is_wrappable outdeg to none = false
is_wrappable outdeg to (some leaf) =
    not (leaf.node.kind == collapse_kind)
    && (elim (truthy leaf.collapse_group) [ none ↦ true | some _ ↦ false ])
    && degree to outdeg == 0

unfoldable pub parents_from :
    List (Text × FoldNode)
    → List (Text × ℕ)
    → List KEdge
    → List (Text × List KEdge)
    → List (Text × List KEdge)
parents_from by_id outdeg [] parents = parents
parents_from by_id outdeg (e ∷ es) parents =
    parents_from by_id outdeg es
      (if is_wrappable outdeg e.to (lookup e.to by_id) then push_at e.to e parents else parents)

abbrev pub owner_prio : KEdge → ℕ
owner_prio e = if e.type == EdgeType.owner_reference then 0 else 1

abbrev pub prior : KEdge → KEdge → Bool
prior e best =
    ltb (owner_prio e) (owner_prio best)
    || owner_prio e == owner_prio best && text_ltb e.from best.from

-- The `reduce` over the edges after the first.
unfoldable pub primary_from : KEdge → List KEdge → KEdge
primary_from best [] = best
primary_from best (e ∷ es) = primary_from (if prior e best then e else best) es

-- `byId.get(leafId)!.push`: a leaf of `parentsOf` has an entry and an edge.
unfoldable pub claim :
    Text → Option FoldNode → List KEdge → List (Text × List KNode) → List (Text × List KNode)
claim leaf_id (some leaf) (e ∷ es) children = push_at (primary_from e es).from leaf.node children
claim leaf_id none edges children = children
claim leaf_id (some leaf) [] children = children

unfoldable pub children_from :
    List (Text × FoldNode)
    → List (Text × List KEdge)
    → List (Text × List KNode)
    → List (Text × List KNode)
children_from by_id [] children = children
children_from by_id ((leaf_id, edges) ∷ parents) children =
    children_from by_id parents (claim leaf_id (lookup leaf_id by_id) edges children)

unfoldable pub children_of : List FoldNode → List KEdge → List (Text × List KNode)
children_of nodes edges =
    let by_id = index_nodes nodes [] in
    children_from by_id (parents_from by_id (count_out edges []) edges []) []

unfoldable pub add_ids : List KNode → List Text → List Text
add_ids [] ids = ids
add_ids (n ∷ ns) ids = add_ids ns (add ids n.id)

module _ (locale_compare : Text → Text → Ordering) (by_name : KNode → KNode → Ordering)
    (edges : List KEdge) (expanded : List Text) (prioritize : Option (KNode → Bool)) where
  unfoldable pub hub_of : Text → List KNode → Hub
  hub_of id children =
      let collapsed =
        collapse_hub_leaves locale_compare by_name id (sort by_name children) edges expanded
          prioritize in
      record { id = id; blocks = collapsed.blocks; pills = collapsed.pills }

  -- The loop over the keys of `childrenOf`.
  unfoldable pub hubs_from : List (Text × List KNode) → Hubs → Hubs
  hubs_from [] found = found
  hubs_from ((id, children) ∷ rest) found = hubs_from rest (
      if ltb (length children) fanout_min then found else record {
        hubs = found.hubs ++ hub_of id children ∷ [];
        wrapped = add_ids (sort by_name children) found.wrapped;
      })

  unfoldable pub find_hubs : List FoldNode → Hubs
  find_hubs nodes = hubs_from (children_of nodes edges) (record { hubs = []; wrapped = [] })
