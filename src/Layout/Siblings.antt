-- ===== src/Layout/Siblings.antt =====
-- `foldSiblingSubtrees` of web/src/layout/collapse.ts: crowded siblings that own subtrees fold away.
pub mod Descent
pub mod Pills
use kd.Common.{
  ℕ, zero, suc, ◌+◌, Bool, true, false, not, ◌&&◌, ◌||◌, Option, none, some, List, [], ◌∷◌, ◌++◌,
  map, Text, text_eq, ◌==◌, if◌then◌else◌, ltb, lookup, insert, add, contains, filter, any, all,
  length, is_nil, Ordering,
}
use kd.Types.{EdgeType, KNode, KEdge, or_empty}
use kd.Collapse.{Fold, split_for_fold, collapse_min_hidden}
use kd.Layout.{CollapseMeta, FoldNode, collapse_kind, pill_id, pill_node}
use kd.Layout.Blocks.{push_at, sibling_key}

-- `new Map(nodes.map((n) => [n.id, n]))`, over the entries that are there.
unfoldable pub index_ids : List KNode → List (Text × KNode) → List (Text × KNode)
index_ids [] entries = entries
index_ids (n ∷ ns) entries = index_ids ns (insert n.id n entries)

abbrev pub is_known : Text → List (Text × KNode) → Bool
is_known id by_id = elim (lookup id by_id) [ none ↦ false | some _ ↦ true ]

-- `childEdgesOf`: the edges between known nodes, by their sources.
unfoldable pub child_edges_from :
    List (Text × KNode) → List KEdge → List (Text × List KEdge) → List (Text × List KEdge)
child_edges_from by_id [] out = out
child_edges_from by_id (e ∷ es) out =
    child_edges_from by_id es
      (if is_known e.from by_id && is_known e.to by_id then push_at e.from e out else out)

-- `isParent.has(id)`: the sources of those edges.
abbrev pub is_parent : List (Text × List KEdge) → Text → Bool
is_parent child_edges_of id = elim (lookup id child_edges_of) [ none ↦ false | some _ ↦ true ]

pub record Walk : Type 0 where
  pub seen : List Text
  pub out : List KNode
  pub queue : List Text

unfoldable pub descend_edge : List (Text × KNode) → KEdge → Walk → Walk
descend_edge by_id e d = if contains d.seen e.to then d else record {
  seen = add d.seen e.to;
  out = elim (lookup e.to by_id) [ none ↦ d.out | some n ↦ d.out ++ n ∷ [] ];
  queue = d.queue ++ e.to ∷ [];
}

unfoldable pub descend_edges : List (Text × KNode) → List KEdge → Walk → Walk
descend_edges by_id [] d = d
descend_edges by_id (e ∷ es) d = descend_edges by_id es (descend_edge by_id e d)

-- The `while` loop; `none` means that the fuel ran out.
unfoldable pub descend : ℕ → List (Text × KNode) → List (Text × List KEdge) → Walk → Option Walk
descend zero by_id child_edges_of d = if is_nil d.queue then some d else none
descend (suc fuel) by_id child_edges_of d = elim d.queue [
  | [] ↦ some d
  | id ∷ rest ↦
      descend fuel by_id child_edges_of
        (descend_edges by_id (or_empty (lookup id child_edges_of)) (record d { queue = rest }))
]

-- The ids that seed `seen` and the queue.
unfoldable pub root_set : List KNode → List Text → List Text
root_set [] seen = seen
root_set (n ∷ ns) seen = root_set ns (add seen n.id)

unfoldable pub descendants_of :
    List (Text × KNode) → List (Text × List KEdge) → List KEdge → List KNode → Option (List KNode)
descendants_of by_id child_edges_of edges roots =
    (elim (descend (length roots + length edges) by_id child_edges_of
      (record { seen = root_set roots []; out = []; queue = map (λ n. n.id) roots })) [
        | none ↦ none
        | some d ↦ some d.out
      ])

-- A child with the type of the edge to it.
pub record Member : Type 0 where
  pub node : KNode
  pub type : EdgeType

-- `byKind` of one parent; the ends of its edges are known.
unfoldable pub members_from :
    List (Text × KNode) → List KEdge → List (Text × List Member) → List (Text × List Member)
members_from by_id [] groups = groups
members_from by_id (e ∷ es) groups = members_from by_id es (elim (lookup e.to by_id) [
  | none ↦ groups
  | some child ↦ push_at child.kind (record { node = child; type = e.type }) groups
])

-- What the loops collect.
pub record Folding : Type 0 where
  pub removed : List Text
  pub framed : List (Text × Text)
  pub claimed : List Text
  pub pills : List FoldNode
  pub pill_edges : List KEdge

unfoldable pub add_ids : List KNode → List Text → List Text
add_ids [] ids = ids
add_ids (n ∷ ns) ids = add_ids ns (add ids n.id)

unfoldable pub set_frames : Text → List KNode → List (Text × Text) → List (Text × Text)
set_frames key [] framed = framed
set_frames key (n ∷ ns) framed = set_frames key ns (insert n.id key framed)

-- `group[0].type`; a group has a member.
abbrev pub type_of_first : List Member → EdgeType
type_of_first [] = EdgeType.owner_reference
type_of_first (g ∷ _) = g.type

abbrev pub group_pill : Text → Text → Bool → Fold → List KNode → FoldNode
group_pill key kind is_expanded f descendants = record {
  node = pill_node key (length f.hidden);
  collapse = some (record {
    key = key;
    group_kind = kind;
    hidden = f.hidden;
    expanded = is_expanded;
    hidden_descendants = some descendants;
  });
  pill_slot = some f.pill_index;
  collapse_group = some key;
}

-- The group folds behind its pill.
unfoldable pub fold_group : Text → Text → List Member → Bool → Fold → List KNode → Folding → Folding
fold_group parent_id kind group is_expanded f descendants st =
    let key = sibling_key parent_id kind in
    let edge : KEdge = record { from = parent_id; to = pill_id key; type = type_of_first group } in
    record {
      removed =
          if is_expanded then st.removed else add_ids descendants (add_ids f.hidden st.removed);
      framed = set_frames key f.visible st.framed;
      claimed = add_ids (map (λ g. g.node) group) st.claimed;
      pills = st.pills ++ group_pill key kind is_expanded f descendants ∷ [];
      pill_edges = st.pill_edges ++ edge ∷ [];
    }

pub record Rewritten : Type 0 where
  pub nodes : List FoldNode
  pub edges : List KEdge

abbrev pub plain_node : KNode → FoldNode
plain_node n = record { node = n; collapse = none; pill_slot = none; collapse_group = none }

abbrev pub framed_node : List (Text × Text) → KNode → FoldNode
framed_node framed n = record {
  node = n;
  collapse = none;
  pill_slot = none;
  collapse_group = lookup n.id framed;
}

abbrev pub is_kept_edge : List Text → KEdge → Bool
is_kept_edge removed e = not (contains removed e.from) && not (contains removed e.to)

unfoldable pub rewrite : List KNode → List KEdge → Folding → Rewritten
rewrite nodes edges st =
    if is_nil st.pills then record { nodes = map plain_node nodes; edges = edges } else record {
      nodes =
          map (framed_node st.framed) (filter (λ n. not (contains st.removed n.id)) nodes)
          ++ st.pills;
      edges = filter (is_kept_edge st.removed) edges ++ st.pill_edges;
    }

module _ (by_name : KNode → KNode → Ordering) (expanded : List Text)
    (prioritize : Option (KNode → Bool)) (edges : List KEdge) (by_id : List (Text × KNode))
    (child_edges_of : List (Text × List KEdge)) where
  abbrev pub is_foldable : Text → List Member → List Text → Bool
  is_foldable kind group claimed =
      not (kind == collapse_kind)
      && any (λ g. is_parent child_edges_of g.node.id) group
      && not (all (λ g. contains claimed g.node.id) group)

  -- The body of the inner loop; `none` means that the fuel of the descent ran out.
  unfoldable pub consider_group : Text → Text → List Member → Folding → Option Folding
  consider_group parent_id kind group st =
      let is_expanded = contains expanded (sibling_key parent_id kind) in
      let f = split_for_fold by_name (map (λ g. g.node) group) is_expanded prioritize in
      if is_foldable kind group st.claimed && not (ltb (length f.hidden) collapse_min_hidden)
      then (elim (descendants_of by_id child_edges_of edges f.hidden) [
        | none ↦ none
        | some descendants ↦ some (fold_group parent_id kind group is_expanded f descendants st)
      ])
      else some st

  unfoldable pub consider_groups : Text → List (Text × List Member) → Folding → Option Folding
  consider_groups parent_id [] st = some st
  consider_groups parent_id ((kind, group) ∷ groups) st =
      elim (consider_group parent_id kind group st) [
        | none ↦ none
        | some st' ↦ consider_groups parent_id groups st'
      ]

  unfoldable pub consider_parents : List (Text × List KEdge) → Folding → Option Folding
  consider_parents [] st = some st
  consider_parents ((parent_id, child_edges) ∷ parents) st =
      elim (consider_groups parent_id (members_from by_id child_edges []) st) [
        | none ↦ none
        | some st' ↦ consider_parents parents st'
      ]

abbrev pub unfolded : Folding
unfolded = record { removed = []; framed = []; claimed = []; pills = []; pill_edges = [] }

unfoldable pub fold_sibling_subtrees :
    (KNode → KNode → Ordering)
    → List KNode
    → List KEdge
    → List Text
    → Option (KNode → Bool)
    → Option Rewritten
fold_sibling_subtrees by_name nodes edges expanded prioritize =
    let by_id = index_ids nodes [] in
    let child_edges_of = child_edges_from by_id edges [] in
    (elim (consider_parents by_name expanded prioritize edges by_id child_edges_of child_edges_of
      unfolded) [ none ↦ none | some st ↦ some (rewrite nodes edges st) ])
