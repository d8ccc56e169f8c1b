-- ===== src/Controls.antt =====
-- web/src/filterToggle.ts, web/src/rovingFocus.ts and web/src/fade.ts: the small models of the
-- canvas's controls.
pub mod Laws
use kd.Common.{
  ℕ, suc, ◌+◌, ◌-◌, ◌%◌, Bool, true, false, not, ◌&&◌, Option, none, some, List, [], ◌∷◌, Text,
  text, text_eq, Eq, nat_eq, ◌==◌, if◌then◌else◌, contains, add, remove, length,
}
use kd.Types.{Health, KNode, health_eq}

unfoldable pub toggle_in_set {ℓ} : {T : Type ℓ} ⦃e : Eq T⦄ → List T → T → Bool → List T
toggle_in_set current item solo =
    if solo
    then (if length current == 1 && contains current item then [] else item ∷ [])
    else if contains current item
    then remove current item
    else add current item

-- The keys that are handled.
pub data RovingKey : Type 0 where
  forward backward home end : RovingKey

abbrev pub roving_key : Text → Option RovingKey
roving_key key =
    if key == text "ArrowRight"
    then some RovingKey.forward
    else if key == text "ArrowDown"
    then some RovingKey.forward
    else if key == text "ArrowLeft"
    then some RovingKey.backward
    else if key == text "ArrowUp"
    then some RovingKey.backward
    else if key == text "Home"
    then some RovingKey.home
    else if key == text "End"
    then some RovingKey.end
    else none

abbrev pub roving_target : RovingKey → ℕ → ℕ → ℕ
roving_target RovingKey.forward current n = (current + 1) % n
roving_target RovingKey.backward current n = (current + n - 1) % n
roving_target RovingKey.home current n = 0
roving_target RovingKey.end current n = n - 1

-- `current` is an index, or `none` for the −1 of a search that failed.
unfoldable pub next_roving_index : Text → Option ℕ → ℕ → Option ℕ
next_roving_index key none n = none
next_roving_index key (some current) n =
    if n == 0
    then none
    else (elim (roving_key key) [ none ↦ none | some k ↦ some (roving_target k current n) ])

-- The dimming inputs; an absent set does not filter.
pub record FadeContext : Type 0 where
  pub selected_id : Option Text
  pub kind_ok : Text → Bool
  pub match_ids : Option (List Text)
  pub health_filter : Option Health
  pub related_ids : Option (List Text)

-- `node.id === ctx.selectedId`
abbrev pub is_selected : Option Text → Text → Bool
is_selected none id = false
is_selected (some s) id = id == s

abbrev pub outside : Option (List Text) → Text → Bool
outside none id = false
outside (some ids) id = not (contains ids id)

unfoldable pub is_node_faded : KNode → FadeContext → Bool
is_node_faded node ctx =
    if is_selected ctx.selected_id node.id
    then false
    else if not (ctx.kind_ok node.kind)
    then true
    else (elim ctx.match_ids [
      | some ids ↦ not (contains ids node.id)
      | none ↦ (elim ctx.health_filter [
        | some h ↦ not (node.health == h)
        | none ↦ outside ctx.related_ids node.id
      ])
    ])
