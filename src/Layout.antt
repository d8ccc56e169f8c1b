-- ===== src/Layout.antt =====
-- web/src/layout/core.ts and the pills of web/src/layout/collapse.ts: what a laid-out node carries
-- beside its geometry.
pub mod Blocks
pub mod Hubs
pub mod Expansion
pub mod Components
pub mod Siblings
use kd.Common.{ℕ, decimal, length, Bool, Option, none, some, List, [], ◌∷◌, ◌++◌, Text, text}
use kd.Types.{Health, KNode}

-- The folded cluster that a "+N more" pill stands for.
pub record CollapseMeta : Type 0 where
  pub key : Text
  pub group_kind : Text
  pub hidden : List KNode
  pub expanded : Bool
  pub hidden_descendants : Option (List KNode)

-- Without the position and the size; a pill is a node with `collapse`.
pub record PositionedNode : Type 0 where
  pub node : KNode
  pub collapse : Option CollapseMeta
  pub collapse_group : Option Text

abbrev pub collapse_kind : Text
collapse_kind = text "__collapse__"

unfoldable pub pill_id : Text → Text
pill_id key = collapse_kind ++ b':' ∷ key

-- The "+N more" affordance.
unfoldable pub pill_node : Text → ℕ → KNode
pill_node key hidden_count = record {
  id = pill_id key;
  kind = collapse_kind;
  namespace = none;
  name = b'+' ∷ (decimal hidden_count ++ text " more");
  health = Health.healthy;
  status = none;
  images = none;
  host = none;
  allocatable = none;
  capacity_res = none;
  requests = none;
  limits = none;
  cluster_ip = none;
  external_ip = none;
  container_statuses = none;
  labels = none;
  owner_uids = none;
}

-- A card of a frame, or of none.
abbrev pub card : Option Text → KNode → PositionedNode
card frame n = record { node = n; collapse = none; collapse_group = frame }

abbrev pub pill : CollapseMeta → PositionedNode
pill meta = record {
  node = pill_node meta.key (length meta.hidden);
  collapse = some meta;
  collapse_group = some meta.key;
}

-- A node of the graph that the layout places, with what foldSiblingSubtrees hangs on it:
-- `_collapse`, `_pillSlot` and `collapseGroup`.
pub record FoldNode : Type 0 where
  pub node : KNode
  pub collapse : Option CollapseMeta
  pub pill_slot : Option ℕ
  pub collapse_group : Option Text
