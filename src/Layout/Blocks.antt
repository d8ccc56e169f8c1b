-- ===== src/Layout/Blocks.antt =====
-- The blocks of a hub's leaves (collapseHubLeaves of web/src/layout/hubs.ts).
use kd.Common.{
  ℕ, ◌+◌, ◌-◌, ◌*◌, ◌/◌, Bool, ◌&&◌, ◌||◌, Option, none, some, List, [], ◌∷◌, ◌++◌, map, Text, text,
  text_eq, ◌==◌, if◌then◌else◌, lookup, insert, contains, find?, any, length, take, drop, is_nil,
  min, max, Ordering, sort,
}
use kd.Types.{EdgeType, KNode, KEdge, or_empty}
use kd.Collapse.{Fold, split_for_fold}
use kd.Layout.{PositionedNode, card, pill, pill_id}

abbrev pub node_width : ℕ
node_width = 220

abbrev pub node_height : ℕ
node_height = 60

abbrev pub leaf_col_max : ℕ
leaf_col_max = 8

abbrev pub leaf_gap_x : ℕ
leaf_gap_x = 18

abbrev pub leaf_gap_y : ℕ
leaf_gap_y = 16

abbrev pub block_gap : ℕ
block_gap = 30

pub record Dims : Type 0 where
  pub cols : ℕ
  pub rows : ℕ
  pub w : ℕ
  pub h : ℕ

-- For a block with at least one cell; a block is made for a kind with a leaf.
unfoldable pub block_dims : ℕ → Dims
block_dims m =
    let rows = min m leaf_col_max in
    let cols = (m + rows - 1) / rows in
    record {
      cols = cols;
      rows = rows;
      w = cols * node_width + (cols - 1) * leaf_gap_x;
      h = rows * node_height + (rows - 1) * leaf_gap_y;
    }

pub record LeafBlock : Type 0 where
  pub kind : Text
  pub frame_key : Option Text
  pub cells : List PositionedNode
  pub dims : Dims

pub record HubPill : Type 0 where
  pub id : Text
  pub type : EdgeType

pub data Rankdir : Type 0 where
  tb lr : Rankdir

abbrev pub sum_by : (LeafBlock → ℕ) → List LeafBlock → ℕ
sum_by sel [] = 0
sum_by sel (b ∷ bs) = sel b + sum_by sel bs

abbrev pub max_by : (LeafBlock → ℕ) → List LeafBlock → ℕ
max_by sel [] = 0
max_by sel (b ∷ bs) = max (sel b) (max_by sel bs)

unfoldable pub hub_area : List LeafBlock → Rankdir → ℕ × ℕ
hub_area blocks Rankdir.lr =
    (max_by (λ b. b.dims.w) blocks, sum_by (λ b. b.dims.h) blocks + (length blocks - 1) * block_gap)
hub_area blocks Rankdir.tb =
    (sum_by (λ b. b.dims.w) blocks + (length blocks - 1) * block_gap, max_by (λ b. b.dims.h) blocks)

-- The cells of one kind: the visible cards, and the pill in its slot where something is hidden.
unfoldable pub block_cells : Text → Text → Bool → Fold → List PositionedNode
block_cells key kind expanded f =
    if is_nil f.hidden
    then map (card none) f.visible
    else map (card (some key)) (take f.pill_index f.visible)
      ++ pill (record {
        key = key;
        group_kind = kind;
        hidden = f.hidden;
        expanded = expanded;
        hidden_descendants = none;
      })
        ∷ map (card (some key)) (drop f.pill_index f.visible)

-- `if (!m.has(k)) m.set(k, []); m.get(k).push(x)`
abbrev pub push_at {ℓ} : {A : Type ℓ} → Text → A → List (Text × List A) → List (Text × List A)
push_at k x m = insert k (or_empty (lookup k m) ++ x ∷ []) m

unfoldable pub by_kind_from : List KNode → List (Text × List KNode) → List (Text × List KNode)
by_kind_from [] groups = groups
by_kind_from (n ∷ ns) groups = by_kind_from ns (push_at n.kind n groups)

abbrev pub sibling_key : Text → Text → Text
sibling_key hub_id kind = text "sib:" ++ (hub_id ++ b':' ∷ kind)

abbrev pub is_in : Text → List KNode → Bool
is_in id hidden = any (λ h. h.id == id) hidden

-- The hub's edge to a hidden leaf, which the edge to the pill takes its type from.
abbrev pub bundled_edge : Text → List KNode → List KEdge → Option KEdge
bundled_edge hub_id hidden edges =
    find? (λ x. x.from == hub_id && is_in x.to hidden || x.to == hub_id && is_in x.from hidden)
      edges

abbrev pub type_or_owner : Option KEdge → EdgeType
type_or_owner none = EdgeType.owner_reference
type_or_owner (some e) = e.type

pub record Collapsed : Type 0 where
  pub blocks : List LeafBlock
  pub pills : List HubPill

abbrev pub no_blocks : Collapsed
no_blocks = record { blocks = []; pills = [] }

-- `localeCompare` of the host, and the order `byName`.
module _ (locale_compare : Text → Text → Ordering) (by_name : KNode → KNode → Ordering) where
  -- The body of the loop, for one kind.
  unfoldable pub leaf_block :
      Text → List Text → Option (KNode → Bool) → Text → List KNode → LeafBlock
  leaf_block hub_id expanded prioritize kind list =
      let key = sibling_key hub_id kind in
      let is_expanded = contains expanded key in
      let split = split_for_fold by_name list is_expanded prioritize in
      let cells = block_cells key kind is_expanded split in
      record {
        kind = kind;
        frame_key = if is_nil split.hidden then none else some key;
        cells = cells;
        dims = block_dims (length cells);
      }

  unfoldable pub leaf_pills :
      Text → List KEdge → List Text → Option (KNode → Bool) → Text → List KNode → List HubPill
  leaf_pills hub_id edges expanded prioritize kind list =
      let key = sibling_key hub_id kind in
      let is_expanded = contains expanded key in
      let split = split_for_fold by_name list is_expanded prioritize in
      if is_nil split.hidden || is_expanded
      then []
      else record {
        id = pill_id key;
        type = type_or_owner (bundled_edge hub_id split.hidden edges);
      }
        ∷ []

  unfoldable pub collapse_kinds :
      Text → List KEdge → List Text → Option (KNode → Bool) → List (Text × List KNode) → Collapsed
  collapse_kinds hub_id edges expanded prioritize [] = no_blocks
  collapse_kinds hub_id edges expanded prioritize ((kind, list) ∷ groups) =
      let rest = collapse_kinds hub_id edges expanded prioritize groups in
      record {
        blocks = leaf_block hub_id expanded prioritize kind list ∷ rest.blocks;
        pills = leaf_pills hub_id edges expanded prioritize kind list ++ rest.pills;
      }

  unfoldable pub collapse_hub_leaves :
      Text → List KNode → List KEdge → List Text → Option (KNode → Bool) → Collapsed
  collapse_hub_leaves hub_id leaves edges expanded prioritize =
      collapse_kinds hub_id edges expanded prioritize
        (sort (λ a b. locale_compare a.0 b.0) (by_kind_from leaves []))
