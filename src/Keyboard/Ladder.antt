-- ===== src/Keyboard/Ladder.antt =====
-- Escape backs out (web/src/appKeyboard.ts).
use kd.Common.{
  ◌≡◌, refl, ◌∙◌, zero, Bool, true, false, Text, text, text_eq, Ordering, arith, ℕ, suc, ◌+◌, ◌-◌,
  ◌≤◌,
}
use kd.Types.{truthy}
use kd.Keyboard.{Ui, KeyEvent, is_some, has_filter, escape, on_key}

abbrev one_if : Bool → ℕ
one_if true = 1
one_if false = 0

-- How many rungs are left: the help, a selection, and the filters.
abbrev pub rungs : Ui → ℕ
rungs u = one_if u.show_help + one_if (is_some (truthy u.selected_id)) + one_if (has_filter u)

rungs-le : (u : Ui) → rungs u ≤ 3
rungs-le u = ground arith

abbrev pub escape_key : KeyEvent
escape_key = record { key = text "Escape"; typing = false; modified = false }

module _ (to_lower_case : Text → Text)
    (locale_compare numeric_compare : Text → Text → Ordering) where
  abbrev pub press : Ui → Ui
  press u = (on_key to_lower_case locale_compare numeric_compare escape_key u).0

  abbrev pub presses : ℕ → Ui → Ui
  presses zero u = u
  presses (suc k) u = presses k (press u)

  press-rungs : (u : Ui) → (rungs (press u) ≡ rungs u - 1) × ((press u).nodes ≡ u.nodes)
  unfolding on_key escape
  press-rungs u = ground arith

  -- Outside the inputs, each press of Escape takes exactly one of the rungs that are left, the help, the
  -- selection and the filters, and the graph stays; so at most three presses leave none, and a further
  -- one takes nothing.
  pub presses-rungs :
      (k : ℕ) (u : Ui)
      → (rungs (presses k u) ≡ rungs u - k)
        × (rungs (presses (3 + k) u) ≡ 0)
        × ((presses k u).nodes ≡ u.nodes)
  presses-rungs k u = (falls k u, omega (arith, falls (3 + k) u, rungs-le u), keeps k u)
    where
      falls : (k : ℕ) (u : Ui) → rungs (presses k u) ≡ rungs u - k
      falls zero u = omega arith
      falls (suc k) u = omega (arith, falls k (press u), (press-rungs u).0)

      keeps : (k : ℕ) (u : Ui) → (presses k u).nodes ≡ u.nodes
      keeps zero u = refl
      keeps (suc k) u = keeps k (press u) ∙ (press-rungs u).1
