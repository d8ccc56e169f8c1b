-- ===== src/KindStats/Hub.antt =====
-- The kind chips over the leaf blocks of a hub (web/src/layout/hubs.ts, kindStats.ts).
use mathlib.Core.List.{Perm, perm_middle}
use mathlib.Core.List.Perm
use kd.Common.{
  ◌≡◌, refl, sym, subst, Bool, Option, none, some, List, [], ◌∷◌, ◌++◌, map, append_assoc,
  append-nil, Text, text_eq, ◌==◌, lookup, insert, Ordering, Bool-cases, inl, inr, sort, place,
  place_at,
}
use kd.Types.{KNode, KEdge, or_empty}
use kd.Layout.{card, PositionedNode}
use kd.Layout.Blocks.{
  LeafBlock, push_at, by_kind_from, leaf_block, collapse_kinds, collapse_hub_leaves,
}
use kd.KindStats.{kind_stats}
use kd.KindStats.Tally.{represented, represented-same}
use kd.KindStats.Folding.{represented-append, represented-perm, represented-cards}

abbrev pub Groups : Type 0
Groups = List (Text × List KNode)

abbrev pub flat : Groups → List KNode
flat [] = []
flat ((kind, list) ∷ groups) = list ++ flat groups

abbrev pub all_cells : List LeafBlock → List PositionedNode
all_cells [] = []
all_cells (b ∷ bs) = b.cells ++ all_cells bs

pub flat-insert :
    (k : Text) (n : KNode) (old : Option (List KNode)) (groups : Groups)
    → lookup k groups ≡ old
    → Perm (flat (insert k (or_empty old ++ n ∷ []) groups)) (n ∷ flat groups)
unfolding insert lookup
flat-insert k n old [] h = rw (← h) (Perm.refl _)
flat-insert k n old ((j, list) ∷ groups) h = elim (Bool-cases (j == k)) [
  | inl same ↦
      let there : some list ≡ old = rw same at h in
      rw (same, ← there)
        (subst (λ l. Perm l (n ∷ (list ++ flat groups)))
          (sym (append_assoc list (n ∷ []) (flat groups))) (perm_middle list (flat groups)))
  | inr other ↦
      let further : lookup k groups ≡ old = rw other at h in
      rw other (
        Perm.trans (Perm.append_left list (flat-insert k n old groups further))
          (perm_middle list (flat groups)))
]

flat-by_kind_from :
    (ns : List KNode) (groups : Groups) → Perm (flat (by_kind_from ns groups)) (ns ++ flat groups)
unfolding by_kind_from
flat-by_kind_from [] groups = Perm.refl _
flat-by_kind_from (n ∷ ns) groups = Perm.trans (flat-by_kind_from ns (push_at n.kind n groups)) (
    Perm.trans (Perm.append_left ns (flat-insert n.kind n _ groups refl))
      (perm_middle ns (flat groups)))

exchange : (a b r : List KNode) → Perm (b ++ (a ++ r)) (a ++ (b ++ r))
exchange a [] r = Perm.refl _
exchange a (x ∷ b) r =
    Perm.trans (Perm.cons x (exchange a b r)) (Perm.symm (perm_middle a (b ++ r)))

module _ (cmp : Text × List KNode → Text × List KNode → Ordering) where
  flat-place : (x : Text × List KNode) (ys : Groups) → Perm (flat (place cmp x ys)) (x.1 ++ flat ys)
  unfolding place place_at
  flat-place x [] = Perm.refl _
  flat-place x (y ∷ ys) = at (flat-place x ys) (cmp x y)
    where
      at :
          Perm (flat (place cmp x ys)) (x.1 ++ flat ys)
          → (o : Ordering)
          → Perm (flat (place_at o x y ys (place cmp x ys))) (x.1 ++ (y.1 ++ flat ys))
      at h Ordering.gt = Perm.trans (Perm.append_left y.1 h) (exchange x.1 y.1 (flat ys))
      at h Ordering.lt = Perm.refl _
      at h Ordering.eq = Perm.refl _

  flat-sort : (groups : Groups) → Perm (flat (sort cmp groups)) (flat groups)
  unfolding sort
  flat-sort [] = Perm.refl _
  flat-sort (g ∷ groups) =
      Perm.trans (flat-place g (sort cmp groups)) (Perm.append_left g.1 (flat-sort groups))

module _ (locale_compare : Text → Text → Ordering) (by_name : KNode → KNode → Ordering)
    (hub_id : Text) (edges : List KEdge) (expanded : List Text)
    (prioritize : Option (KNode → Bool)) where
  kinds-perm :
      (groups : Groups)
      → Perm
          (represented (
            all_cells
              (collapse_kinds locale_compare by_name hub_id edges expanded prioritize
                groups).blocks))
          (flat groups)
  unfolding collapse_kinds represented leaf_block
  kinds-perm [] = Perm.refl []
  kinds-perm ((kind, list) ∷ groups) =
      let rest = collapse_kinds locale_compare by_name hub_id edges expanded prioritize groups in
      let block = leaf_block locale_compare by_name hub_id expanded prioritize kind list in
      subst (λ l. Perm l (list ++ flat groups))
        (sym (represented-append block.cells (all_cells rest.blocks)))
        (Perm.append (represented-perm by_name _ kind list _ prioritize) (kinds-perm groups))

  -- The cards and pills of all blocks of a hub, folded or not, stand for exactly the hub's leaves; so
  -- each kind chip shows for them what it shows for the leaves when they are all drawn.
  pub collapse_hub_leaves-kind_stats :
      (leaves : List KNode)
      → let cells =
          all_cells
            (collapse_hub_leaves locale_compare by_name hub_id leaves edges expanded
              prioritize).blocks in
        Perm (represented cells) leaves
        × ((k : Text)
            → lookup k (kind_stats cells) ≡ lookup k (kind_stats (map (card none) leaves)))
  unfolding collapse_hub_leaves
  collapse_hub_leaves-kind_stats leaves =
      let groups = by_kind_from leaves [] in
      let p = Perm.trans (kinds-perm (sort (λ a b. locale_compare a.0 b.0) groups)) (
        Perm.trans (flat-sort (λ a b. locale_compare a.0 b.0) groups)
          (subst (λ l. Perm (flat groups) l) (append-nil leaves) (flat-by_kind_from leaves []))) in
      (p, represented-same _ _ (rw (represented-cards none leaves) p))
