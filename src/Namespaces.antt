-- ===== src/Namespaces.antt =====
-- web/src/ns.ts: the order of namespaces, where the client lands, and the merge with live health.
pub mod Landing
pub mod Cycle
pub mod Live
pub mod Rows
use Prim.Native.Nat.{compare}
use kd.Common.{
  ℕ, suc, ◌+◌, ◌%◌, ◌≡◌, refl, Bool, true, false, not, ◌&&◌, Option, none, some, List, [], ◌∷◌, map,
  Text, text, text_eq, ◌==◌, if◌then◌else◌, filter, any, leb, length, get_elem?, lookup, Ordering,
  then_by, sort,
}
use kd.Types.{Health}
use kd.Health.{health_severity}

-- CLUSTER_SCOPE of api.ts
abbrev pub cluster_scope : Text
cluster_scope = text "__cluster__"

pub record NamespaceInfo : Type 0 where
  pub name : Text
  pub health : Health
  pub non_ready : Option ℕ

unfoldable pub namespace_label : Text → Text
namespace_label ns = if ns == cluster_scope then text "[cluster]" else ns

-- `n.nonReady ?? 0`
abbrev pub non_ready_of : NamespaceInfo → ℕ
non_ready_of n = elim n.non_ready [ none ↦ 0 | some k ↦ k ]

-- Not the pseudo-namespace.
abbrev pub is_real : NamespaceInfo → Bool
is_real n = not (n.name == cluster_scope)

abbrev pub is_troubled : NamespaceInfo → Bool
is_troubled n = is_real n && leb (health_severity Health.progressing) (health_severity n.health)

abbrev pub first {ℓ} : {A : Type ℓ} → List A → Option A
first [] = none
first (x ∷ _) = some x

pub record NsPick : Type 0 where
  pub name : Text
  pub notify : Bool

-- Keep the current one (`null`), go elsewhere, or read a property of `undefined`.
pub data Decision : Type 0 where
  keep : Decision
  pick : NsPick → Decision
  type_error : Decision

-- `resolvedCtx !== null && resolvedCtx !== currentCtx`
abbrev pub is_switching : Option Text → Option Text → Bool
is_switching current none = false
is_switching none (some c) = true
is_switching (some d) (some c) = not (c == d)

-- `n.name === current`
abbrev pub is_named : Option Text → NamespaceInfo → Bool
is_named none n = false
is_named (some name) n = n.name == name

-- `findIndex(…) + 1`, by `i` for the index of the head.
unfoldable pub index_after : Option Text → ℕ → List NamespaceInfo → ℕ
index_after current i [] = 0
index_after current i (n ∷ ns) =
    let later = index_after current (suc i) ns in if is_named current n then suc i else later

-- The collation `localeCompare` of the host.
module _ (locale_compare : Text → Text → Ordering) where
  unfoldable pub compare_namespaces : NamespaceInfo → NamespaceInfo → Ordering
  compare_namespaces a b =
      then_by (compare (health_severity b.health) (health_severity a.health))
        (then_by (compare (non_ready_of b) (non_ready_of a)) (locale_compare a.name b.name))

  unfoldable pub most_troubled : List NamespaceInfo → Option NamespaceInfo
  most_troubled list = first (sort compare_namespaces (filter is_real list))

  unfoldable pub troubled_namespaces : List NamespaceInfo → List NamespaceInfo
  troubled_namespaces list = sort compare_namespaces (filter is_troubled list)

  -- `mostTroubled(list) ?? list[0]`; `none` where the list is empty.
  unfoldable pub landing : List NamespaceInfo → Option NamespaceInfo
  landing list = elim (most_troubled list) [ none ↦ first list | some n ↦ some n ]

  unfoldable pub decide_namespace_pick :
      List NamespaceInfo → Option Text → Option Text → Option Text → Decision
  decide_namespace_pick list current_ns current_ctx resolved_ctx =
      if any (is_named current_ns) list then keep else (elim (landing list) [
        | none ↦ type_error
        | some n ↦
            pick (record { name = n.name; notify = not (is_switching current_ctx resolved_ctx) })
      ])

  -- The element that stands at `(idx + 1) % length` of the troubled namespaces.
  unfoldable pub next_troubled : List NamespaceInfo → Option Text → Option NamespaceInfo
  next_troubled list current =
      let troubled = troubled_namespaces list in
      get_elem? troubled (index_after current 0 troubled % length troubled)

-- A namespace's last live summary, with its context and the generation of the poll that it came in.
pub record LiveHealth : Type 0 where
  pub health : Health
  pub non_ready : Option ℕ
  pub gen : ℕ
  pub ctx : Text

abbrev pub is_text : Option Text → Text → Bool
is_text none c = false
is_text (some d) c = c == d

-- The cached entry that wins over the polled one.
abbrev pub winner : Option LiveHealth → ℕ → Option Text → Option LiveHealth
winner none poll_gen ctx = none
winner (some live) poll_gen ctx =
    if is_text ctx live.ctx && leb poll_gen live.gen then some live else none

unfoldable pub merge_one :
    List (Text × LiveHealth) → ℕ → Option Text → NamespaceInfo → NamespaceInfo
merge_one live_by_ns poll_gen ctx n = elim (winner (lookup n.name live_by_ns) poll_gen ctx) [
  | none ↦ n
  | some live ↦ record n { health = live.health; non_ready = live.non_ready }
]

unfoldable pub merge_namespace_health :
    List NamespaceInfo → List (Text × LiveHealth) → ℕ → Option Text → List NamespaceInfo
merge_namespace_health list live_by_ns poll_gen ctx = map (merge_one live_by_ns poll_gen ctx) list
