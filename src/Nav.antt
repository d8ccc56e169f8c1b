-- ===== src/Nav.antt =====
-- web/src/nav.ts: what is selected when a snapshot arrives, and the steps of keyboard navigation.
pub mod Selection
pub mod Steps
use Prim.Native.Nat.{compare}
use kd.Common.{
  ℕ, zero, suc, ◌+◌, ◌-◌, ◌%◌, ◌≡◌, refl, Bool, true, false, not, ◌&&◌, ◌||◌, Option, none, some,
  List, [], ◌∷◌, ◌++◌, Text, text, text_eq, ◌==◌, if◌then◌else◌, is_nil, any, find?, length,
  get_elem?, Ordering, then_by, sort, split_unit, trim, filter, contains,
}
use kd.Health.{health_severity}
use kd.Types.{Health, KNode, truthy, health_eq}
use kd.Search.{node_matches}

-- `n.namespace ?? ''`
abbrev pub namespace_of : KNode → Text
namespace_of n = elim n.namespace [ none ↦ [] | some s ↦ s ]

abbrev pub kind_slash_name : KNode → Text
kind_slash_name n = n.kind ++ b'/' ∷ n.name

-- The reference with three parts, and any other.
abbrev pub match_parts : KNode → Text → List Text → Bool
match_parts n sel (kind ∷ namespace ∷ name ∷ []) =
    n.kind == kind && (namespace_of n == namespace && n.name == name)
match_parts n sel [] = kind_slash_name n == sel
match_parts n sel (_ ∷ []) = kind_slash_name n == sel
match_parts n sel (_ ∷ _ ∷ []) = kind_slash_name n == sel
match_parts n sel (_ ∷ _ ∷ _ ∷ _ ∷ _) = kind_slash_name n == sel

unfoldable pub match_sel : KNode → Text → Bool
match_sel n sel = match_parts n sel (split_unit b'/' sel)

pub record Resolution : Type 0 where
  pub id : Option Text
  pub consumed_pending : Bool

abbrev pub has_id : Text → KNode → Bool
has_id id n = n.id == id

abbrev pub is_kept : List KNode → Option Text → Bool
is_kept nodes none = false
is_kept nodes (some id) = any (has_id id) nodes

-- The node that the deep link addresses.
abbrev pub linked : List KNode → Option Text → Option KNode
linked nodes none = none
linked nodes (some sel) = find? (λ n. match_sel n sel) nodes

unfoldable pub resolve_selection_on_snapshot : List KNode → Option Text → Option Text → Resolution
resolve_selection_on_snapshot nodes keep_id pending_sel =
    if is_kept nodes (truthy keep_id)
    then record { id = truthy keep_id; consumed_pending = false }
    else (elim (linked nodes (truthy pending_sel)) [
      | none ↦ record { id = none; consumed_pending = false }
      | some n ↦ record { id = some n.id; consumed_pending = true }
    ])

-- `findIndex((n) => n.id === id)`, by `i` for the index of the head.
unfoldable pub index_by_id : Text → ℕ → List KNode → Option ℕ
index_by_id id i [] = none
index_by_id id i (n ∷ ns) =
    let later = index_by_id id (suc i) ns in if n.id == id then some i else later

abbrev pub current_index : Option Text → List KNode → Option ℕ
current_index none ns = none
current_index (some id) ns = index_by_id id 0 ns

-- The step `1` or `-1`.
pub data Direction : Type 0 where
  next previous : Direction

-- `(idx + dir + ordered.length) % ordered.length`
abbrev pub step_index : Direction → ℕ → ℕ → ℕ
step_index Direction.next idx n = (idx + 1 + n) % n
step_index Direction.previous idx n = (idx + n - 1) % n

-- Where a step leads without a current index.
abbrev pub end_index : Direction → ℕ → ℕ
end_index Direction.next n = 0
end_index Direction.previous n = n - 1

abbrev pub landing_index : Direction → Option ℕ → ℕ → ℕ
landing_index dir none n = end_index dir n
landing_index dir (some idx) n = step_index dir idx n

abbrev pub id_of : Option KNode → Option Text
id_of none = none
id_of (some n) = some n.id

-- The collation `localeCompare` of the host, plain and with `{ numeric: true }`.
module _ (locale_compare numeric_compare : Text → Text → Ordering) where
  unfoldable pub nav_order : KNode → KNode → Ordering
  nav_order a b =
      then_by (compare (health_severity b.health) (health_severity a.health))
        (if a.kind == b.kind then numeric_compare a.name b.name else locale_compare a.kind b.kind)

  unfoldable pub ordered_for_nav : List KNode → List KNode
  ordered_for_nav nodes = sort nav_order nodes

  unfoldable pub next_selection : List KNode → Option Text → Direction → Option Text
  next_selection nodes current_id dir =
      let ordered = ordered_for_nav nodes in
      id_of (
        get_elem? ordered
          (landing_index dir (current_index (truthy current_id) ordered) (length ordered)))

-- An absent or empty set of kinds does not filter.
abbrev pub kind_passes : Option (List Text) → Text → Bool
kind_passes none kind = true
kind_passes (some kinds) kind = is_nil kinds || contains kinds kind

abbrev pub health_passes : Option Health → Health → Bool
health_passes none h = true
health_passes (some wanted) h = h == wanted

module _ (to_lower_case : Text → Text) where
  unfoldable pub matches_all : Text → Option Health → Option (List Text) → KNode → Bool
  matches_all q health_filter kind_filter n =
      (is_nil q || node_matches to_lower_case n q)
      && health_passes health_filter n.health
      && kind_passes kind_filter n.kind

  unfoldable pub nav_candidates :
      List KNode → Text → Option Health → Option (List Text) → List KNode
  nav_candidates nodes search health_filter kind_filter =
      filter (matches_all (trim search) health_filter kind_filter) nodes
