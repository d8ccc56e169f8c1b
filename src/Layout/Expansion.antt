-- ===== src/Layout/Expansion.antt =====
-- web/src/components/topology/collapseState.ts: which folds are expanded.
use kd.Common.{
  ◌≡◌, refl, Bool, true, false, ◌&&◌, ◌||◌, Option, none, some, List, [], ◌∷◌, Text, text_eq, ◌==◌,
  if◌then◌else◌, any, contains, contains-add, contains-remove, add, remove, arith, Occurs,
  get_elem?, ℕ, zero, suc, Option-cases, Bool-cases, inl, inr, text_beq_iff, ==_refl,
}
use kd.Types.{truthy, or_empty}
use kd.Nav.{has_id}
use kd.Layout.{CollapseMeta, PositionedNode}

unfoldable pub toggle_cluster : Text → List Text → List Text
toggle_cluster key s = if contains s key then remove s key else add s key

abbrev pub is_drawn : Text → PositionedNode → Bool
is_drawn id n = n.node.id == id && (elim n.collapse [ none ↦ true | some _ ↦ false ])

abbrev pub covers : Text → CollapseMeta → Bool
covers id m = any (has_id id) m.hidden || any (has_id id) (or_empty m.hidden_descendants)

-- The first fold that covers the node.
unfoldable pub fold_of : Text → List PositionedNode → Option CollapseMeta
fold_of id [] = none
fold_of id (n ∷ ns) = elim n.collapse [
  | none ↦ fold_of id ns
  | some m ↦ if covers id m then some m else fold_of id ns
]

-- The effect of `autoExpandSelection`.
unfoldable pub auto_expand : Option Text → List PositionedNode → List Text → List Text
auto_expand selected_id nodes expanded = elim (truthy selected_id) [
  | none ↦ expanded
  | some id ↦ if any (is_drawn id) nodes then expanded else (elim (fold_of id nodes) [
    | none ↦ expanded
    | some m ↦ if contains expanded m.key then expanded else add expanded m.key
  ])
]

-- A second press on a pill takes the first one back.
pub toggle_cluster_twice :
    (key : Text) (s : List Text) (k : Text)
    → contains (toggle_cluster key (toggle_cluster key s)) k ≡ contains s k
unfolding toggle_cluster
toggle_cluster_twice key s k = ground (
  arith,
  contains-add s key k,
  contains-add s key key,
  contains-remove s key k,
  contains-remove s key key,
  contains-remove (add s key) key k,
  contains-add (remove s key) key k,
  text_beq_iff key k,
  ==_refl key,
)

fold_of-covers :
    (id : Text) (ns : List PositionedNode) (i : ℕ) (n : PositionedNode) (m : CollapseMeta)
    → get_elem? ns i ≡ some n
    → n.collapse ≡ some m
    → covers id m ≡ true
    → (f : CollapseMeta) × (fold_of id ns ≡ some f) × (covers id f ≡ true)
unfolding fold_of
fold_of-covers id [] i n m at pill h = cc
fold_of-covers id (x ∷ ns) zero n m at pill h =
    let same : x ≡ n = cc in (m, rw (same, pill, h) refl, h)
fold_of-covers id (x ∷ ns) (suc i) n m at pill h = elim (Option-cases x.collapse) [
  | inl card ↦ rw card (fold_of-covers id ns i n m at pill h)
  | inr (o, other) ↦ elim (Bool-cases (covers id o)) [
    | inl first ↦ (o, rw (other, first) refl, first)
    | inr no_cover ↦ rw (other, no_cover) (fold_of-covers id ns i n m at pill h)
  ]
]

-- Where the selection is not drawn and some fold covers it, one fold that covers it is expanded, and
-- besides that nothing changes.
pub auto_expand-reveals :
    (id : Text) (nodes : List PositionedNode) (expanded : List Text) (n : PositionedNode)
    (m : CollapseMeta)
    → truthy (some id) ≡ some id
    → any (is_drawn id) nodes ≡ false
    → Occurs n nodes
    → n.collapse ≡ some m
    → covers id m ≡ true
    → (f : CollapseMeta) × (covers id f ≡ true)
      × ((k : Text)
          → contains (auto_expand (some id) nodes expanded) k ≡ (contains expanded k || f.key == k))
unfolding auto_expand
auto_expand-reveals id nodes expanded n m named hidden (i, at) pill h =
    let (f, found, covered) = fold_of-covers id nodes i n m at pill h in
    (f, covered, λ k. ground (arith, contains-add expanded f.key k, text_beq_iff f.key k))
