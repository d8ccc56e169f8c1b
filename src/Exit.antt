-- ===== src/Exit.antt =====
-- web/src/components/topology/exitAnimation.ts: the cards that fade out.
pub mod Leaving
use kd.Common.{
  ℕ, Bool, true, false, not, ◌&&◌, Option, none, some, List, [], ◌∷◌, ◌++◌, map, Text, text_eq,
  ◌==◌, if◌then◌else◌, filter, contains, add, remove,
}
use kd.Layout.{PositionedNode}
use kd.Spotlight.{GroupBy}

-- `timers` are the keys of `exitTimers`.
pub record Exit : Type 0 where
  pub prev_positioned : List PositionedNode
  pub exiting : List PositionedNode
  pub timers : List Text

abbrev pub no_exit : Exit
no_exit = record { prev_positioned = []; exiting = []; timers = [] }

abbrev pub card_ids : List PositionedNode → List Text
card_ids ns = map (λ n. n.node.id) ns

abbrev pub is_card : PositionedNode → Bool
is_card n = elim n.collapse [ none ↦ true | some _ ↦ false ]

unfoldable pub has_left : List PositionedNode → List Text → PositionedNode → Bool
has_left cur timers n =
    not (contains (card_ids cur) n.node.id) && not (contains timers n.node.id) && is_card n

unfoldable pub start_timers : List PositionedNode → List Text → List Text
start_timers [] timers = timers
start_timers (n ∷ ns) timers = start_timers ns (add timers n.node.id)

-- The effect, when the layout has changed.
unfoldable pub on_layout : List PositionedNode → Exit → Exit
on_layout cur e =
    let removed = filter (has_left cur e.timers) e.prev_positioned in
    record {
      prev_positioned = cur;
      exiting = e.exiting ++ removed;
      timers = start_timers removed e.timers;
    }

-- The timer of a card is over.
unfoldable pub on_timer : Text → Exit → Exit
on_timer id e = record e {
  exiting = filter (λ p. not (p.node.id == id)) e.exiting;
  timers = remove e.timers id;
}

pub data ExitEvent : Type 0 where
  layout : List PositionedNode → ExitEvent
  timer : Text → ExitEvent

unfoldable pub step : ExitEvent → Exit → Exit
step (layout cur) e = on_layout cur e
step (timer id) e = on_timer id e

unfoldable pub run : List ExitEvent → Exit → Exit
run [] e = e
run (x ∷ xs) e = run xs (step x e)

-- What is drawn; the capacity view draws itself.
unfoldable pub render_nodes : Option GroupBy → List PositionedNode → Exit → List PositionedNode
render_nodes none layout_nodes e = layout_nodes ++ e.exiting
render_nodes (some GroupBy.nodes) layout_nodes e = []
render_nodes (some GroupBy.kind) layout_nodes e = layout_nodes ++ e.exiting
render_nodes (some GroupBy.relationship) layout_nodes e = layout_nodes ++ e.exiting
