-- ===== src/Tests.antt =====
-- Concrete graphs, texts and sessions, at which the theorems are applied.
mod Graph
mod Texts
mod Logs
mod Client
mod Views
mod Canvas
mod Session
use kd.Common.{
  ℕ, Bool, true, false, Option, none, some, List, [], ◌∷◌, Text, text, length, Ordering,
  on-IsComparator, compare-IsComparator, IsComparator, All, map, ◌≡◌, refl, lower_unit, ◌∷◌, arith,
}
use Prim.Native.Nat.{compare}
use kd.Relationships.Link.{IsLowerLetter}
use kd.Types.{Health, EdgeType, KNode, KEdge, KGraph, Patch}

abbrev node : Text → Text → Text → Health → KNode
node id kind name health = record {
  id = id;
  kind = kind;
  namespace = none;
  name = name;
  health = health;
  status = none;
  images = none;
  host = none;
  allocatable = none;
  capacity_res = none;
  requests = none;
  limits = none;
  cluster_ip = none;
  external_ip = none;
  container_statuses = none;
  labels = none;
  owner_uids = none;
}

abbrev web : KNode
web = node (text "u1") (text "Deployment") (text "web") Health.healthy

abbrev pod : KNode
pod = node (text "u2") (text "Pod") (text "web-0") Health.degraded

abbrev config : KNode
config = node (text "u3") (text "ConfigMap") (text "web-config") Health.progressing

abbrev edge : Text → Text → EdgeType → KEdge
edge from to type = record { from = from; to = to; type = type }

abbrev owns : KEdge
owns = edge (text "u1") (text "u2") EdgeType.owner_reference

abbrev mounts_config : KEdge
mounts_config = edge (text "u2") (text "u3") EdgeType.mounts

abbrev snapshot : KGraph
snapshot = record { nodes = some (web ∷ pod ∷ []); edges = some (owns ∷ []) }

abbrev patch : Patch
patch = record {
  upsert_nodes = some (config ∷ []);
  remove_node_ids = some (text "u1" ∷ []);
  upsert_edges = some (mounts_config ∷ []);
  remove_edges = some (owns ∷ []);
}

-- A collation that orders names by their length.
abbrev by_length : Text → Text → Ordering
by_length a b = compare (length a) (length b)

by_length-IsComparator : IsComparator by_length
by_length-IsComparator = on-IsComparator length compare compare-IsComparator

-- Lower-casing by units.
keeps_lower : (s : Text) → All IsLowerLetter s → map lower_unit s ≡ s
keeps_lower [] h = refl
keeps_lower (c ∷ s) h = ground (arith, h, keeps_lower s h.1)
