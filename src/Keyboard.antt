-- ===== src/Keyboard.antt =====
-- web/src/appKeyboard.ts: the keys of the client, and the ladder that Escape goes down.
pub mod Ladder
use kd.Common.{
  ℕ, ◌+◌, Bool, true, false, not, ◌&&◌, ◌||◌, Option, none, some, List, [], ◌∷◌, Text, text,
  text_eq, ◌==◌, if◌then◌else◌, is_nil, Ordering,
}
use kd.Types.{Health, KNode, truthy}
use kd.Nav.{Direction, next_selection, nav_candidates}

-- The signals that the keys read and write.
pub record Ui : Type 0 where
  pub nodes : List KNode
  pub search : Text
  pub health_filter : Option Health
  pub kind_filter : List Text
  pub selected_id : Option Text
  pub show_help : Bool

-- `typing` is whether the target is an input; `modified` is `metaKey || ctrlKey || altKey`.
pub record KeyEvent : Type 0 where
  pub key : Text
  pub typing : Bool
  pub modified : Bool

-- What a key does to the page.
pub data Effect : Type 0 where
  prevent_default focus_search blur : Effect

abbrev pub is_some {ℓ} : {A : Type ℓ} → Option A → Bool
is_some none = false
is_some (some _) = true

abbrev pub has_filter : Ui → Bool
has_filter u = not (is_nil u.search) || is_some u.health_filter || not (is_nil u.kind_filter)

unfoldable pub escape : Bool → Ui → Ui × List Effect
escape typing u =
    if u.show_help
    then (record u { show_help = false }, [])
    else if typing
    then (u, Effect.blur ∷ [])
    else if is_some (truthy u.selected_id)
    then (record u { selected_id = none }, [])
    else if has_filter u
    then (record u { search = []; health_filter = none; kind_filter = [] }, [])
    else (u, [])

-- `lower` and the comparisons belong to the host.
module _ (to_lower_case : Text → Text)
    (locale_compare numeric_compare : Text → Text → Ordering) where
  unfoldable pub walk_selection : Direction → Ui → Ui
  walk_selection dir u =
      let cand =
        nav_candidates to_lower_case u.nodes u.search u.health_filter (some u.kind_filter) in
      record u {
        selected_id = elim (next_selection locale_compare numeric_compare cand u.selected_id dir) [
          | none ↦ u.selected_id
          | some id ↦ some id
        ];
      }

  unfoldable pub on_key : KeyEvent → Ui → Ui × List Effect
  on_key e u =
      if e.modified
      then (u, [])
      else if e.key == text "?" && not e.typing
      then (record u { show_help = not u.show_help }, [])
      else if e.key == text "/" && not e.typing
      then (u, Effect.prevent_default ∷ Effect.focus_search ∷ [])
      else if not e.typing && e.key == text "ArrowDown"
      then (walk_selection Direction.next u, Effect.prevent_default ∷ [])
      else if not e.typing && e.key == text "ArrowUp"
      then (walk_selection Direction.previous u, Effect.prevent_default ∷ [])
      else if e.key == text "Escape"
      then escape e.typing u
      else (u, [])
