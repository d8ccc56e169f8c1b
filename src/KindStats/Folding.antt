-- ===== src/KindStats/Folding.antt =====
-- The kind chips (web/src/kindStats.ts) do not depend on what is folded.
use mathlib.Core.List.{Perm}
use kd.Common.{
  ◌≡◌, refl, sym, ap, ◌∙◌, Bool, true, false, Option, none, some, List, [], ◌∷◌, ◌++◌, map,
  append_assoc, append-nil, Text, text_eq, lookup, inl, inr, take, drop, take-append-drop,
  List-cases, Ordering,
}
use kd.Types.{KNode, health_eq}
use kd.Collapse.{Fold, split_for_fold}
use kd.Collapse.Expanding.{refilled, split_for_fold-Expands}
use kd.Layout.Blocks.{block_cells}
use kd.Layout.{card, PositionedNode}
use kd.KindStats.Tally.{represented, counted, represented-same}
use kd.KindStats.{kind_stats}

pub represented-append :
    (ns ms : List PositionedNode) → represented (ns ++ ms) ≡ represented ns ++ represented ms
unfolding represented
represented-append [] ms = refl
represented-append (n ∷ ns) ms =
    ap (λ r. counted n ++ r) (represented-append ns ms)
    ∙ sym (append_assoc (counted n) (represented ns) (represented ms))

pub represented-cards :
    (frame : Option Text) (ns : List KNode) → represented (map (card frame) ns) ≡ ns
unfolding represented
represented-cards frame [] = refl
represented-cards frame (n ∷ ns) = ap (λ r. n ∷ r) (represented-cards frame ns)

-- A folded block stands for its cards, with the hidden ones where the pill is.
represented-folded :
    (key kind : Text) (f : Fold) → represented (block_cells key kind false f) ≡ refilled f
unfolding block_cells represented
represented-folded key kind f = elim (List-cases f.hidden) [
  | inl nothing ↦
      rw nothing (represented-cards none f.visible ∙ sym (take-append-drop f.pill_index f.visible))
  | inr (h, hs, some_hidden) ↦
      let left = take f.pill_index f.visible in
      let right = drop f.pill_index f.visible in
      rw some_hidden
        (represented-append (map (card (some key)) left) _ ∙ (simp (represented-cards, append-nil)))
]

represented-unfolded :
    (key kind : Text) (f : Fold) → represented (block_cells key kind true f) ≡ f.visible
unfolding block_cells represented
represented-unfolded key kind f = elim (List-cases f.hidden) [
  | inl nothing ↦ rw nothing (represented-cards none f.visible)
  | inr (h, hs, some_hidden) ↦
      let left = take f.pill_index f.visible in
      let right = drop f.pill_index f.visible in
      rw some_hidden (
        represented-append (map (card (some key)) left) _
        ∙ (simp (represented-cards))
        ∙ take-append-drop f.pill_index f.visible)
]

module _ (cmp : KNode → KNode → Ordering) where
  pub represented-perm :
      (key kind : Text) (nodes : List KNode) (expanded : Bool) (prioritize : Option (KNode → Bool))
      → Perm
          (represented
            (block_cells key kind expanded (split_for_fold cmp nodes expanded prioritize)))
          nodes
  represented-perm key kind nodes true prioritize =
      rw (represented-unfolded key kind (split_for_fold cmp nodes true prioritize))
        (split_for_fold-Expands cmp nodes prioritize).3
  represented-perm key kind nodes false prioritize =
      let (agree, same, few, perm) = split_for_fold-Expands cmp nodes prioritize in
      rw (represented-folded key kind (split_for_fold cmp nodes false prioritize), agree) perm

  -- Whatever the order, the priority and the state of the fold, a cluster shown as its visible cards
  -- and its pill gives each kind chip what its nodes give it when they are all drawn.
  pub kind_stats-folded :
      (key kind : Text) (nodes : List KNode) (expanded : Bool) (prioritize : Option (KNode → Bool))
      (k : Text)
      → lookup k (
          kind_stats (block_cells key kind expanded (split_for_fold cmp nodes expanded prioritize)))
        ≡ lookup k (kind_stats (map (card none) nodes))
  kind_stats-folded key kind nodes expanded prioritize =
      represented-same _ _
        (rw (represented-cards none nodes) (represented-perm key kind nodes expanded prioritize))
