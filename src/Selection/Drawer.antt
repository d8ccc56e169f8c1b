-- ===== src/Selection/Drawer.antt =====
-- The drawer follows the selection (web/src/selection.ts).
use kd.Common.{
  ◌≡◌, sym, ap, ◌∙◌, not, ◌⊎◌, inl, inr, Option, none, some, List, [], ◌∷◌, Text, text_eq, lookup,
  lookup-insert, insert, arith, Option-cases, text_beq_iff, ==_refl,
}
use kd.Types.{KNode, truthy}
use kd.Layout.Siblings.{index_ids}
use kd.Selection.{
  Details, feed_nodes, cap_by_id, selected_node, last_if, drawer_node, is_set, selection_deleted,
}

-- The graph stores each node under its own identifier.
abbrev pub IsKeyed : List (Text × KNode) → Type 0
IsKeyed entries = (id : Text) (n : KNode) → lookup id entries ≡ some n → n.id ≡ id

index_ids-IsKeyed :
    (ns : List KNode) (entries : List (Text × KNode))
    → IsKeyed entries
    → IsKeyed (index_ids ns entries)
unfolding index_ids
index_ids-IsKeyed [] entries h = h
index_ids-IsKeyed (n ∷ ns) entries h =
    index_ids-IsKeyed ns (insert n.id n entries)
      (λ id m e. ground (arith, lookup-insert n.id id n entries, text_beq_iff n.id id, h id m))

-- The runs of the memo, the newest first.
abbrev pub drawer : List Details → Option KNode × Option KNode
drawer [] = (none, none)
drawer (s ∷ before) = drawer_node (drawer before).1 s

abbrev pub WasSelected : KNode → List Details → Type 0
WasSelected n [] = ⊥
WasSelected n (s ∷ before) = (selected_node s ≡ some n) ⊎ WasSelected n before

truthy-some_inv : (o : Option Text) (id : Text) → truthy o ≡ some id → o ≡ some id
truthy-some_inv none id h = cc
truthy-some_inv (some []) id h = cc
truthy-some_inv (some (c ∷ t)) id h = h

selected_node-id :
    (s : Details) (n : KNode)
    → IsKeyed s.graph.nodes
    → selected_node s ≡ some n
    → s.selected_id ≡ some n.id
unfolding selected_node cap_by_id lookup
selected_node-id s n keyed h = elim (Option-cases (truthy s.selected_id)) [
  | inl unset ↦ ground arith
  | inr (id, named) ↦
      truthy-some_inv s.selected_id id named
      ∙ ap some (elim (Option-cases (lookup id s.graph.nodes)) [
        | inl absent ↦
            sym (index_ids-IsKeyed (feed_nodes s.capacity) [] (λ j m e. cc) id n (ground arith))
        | inr (m, there) ↦ sym (keyed id n (ground arith))
      ])
]

-- What `lastResolved` holds was selected.
last-WasSelected : (ss : List Details) (n : KNode) → (drawer ss).1 ≡ some n → WasSelected n ss
unfolding drawer_node
last-WasSelected [] n h = cc
last-WasSelected (s ∷ before) n h = elim (Option-cases (selected_node s)) [
  | inl gone ↦ inr (last-WasSelected before n (ground arith))
  | inr (m, there) ↦ inl (ground arith)
]

last_if-some :
    (o : Option Text) (last : Option KNode) (n : KNode)
    → last_if o last ≡ some n
    → (last ≡ some n) × (o ≡ some n.id)
last_if-some none last n h = cc
last_if-some (some id) none n h = cc
last_if-some (some id) (some m) n h = ground (arith, text_beq_iff m.id id)

-- Over any sequence of changes, the drawer shows a resource only while that is the selection, and only
-- as it resolved at that change or an earlier one; it shows what the selection resolves to, and calls
-- it deleted exactly if it shows a node that no longer resolves; and while the selection stays, a node
-- that has gone stays in the drawer.
pub drawer_node-WasSelected :
    (s : Details) (before : List Details)
    → IsKeyed s.graph.nodes
    → let shown = (drawer (s ∷ before)).0 in
      ((n : KNode)
        → shown ≡ some n
        → (s.selected_id ≡ some n.id)
          × WasSelected n (s ∷ before)
          × (selection_deleted (drawer before).1 s ≡ not (is_set (selected_node s))))
      × ((n : KNode) → selected_node s ≡ some n → shown ≡ some n)
      × ((n : KNode)
          → (drawer before).1 ≡ some n
          → selected_node s ≡ none
          → truthy s.selected_id ≡ some n.id
          → shown ≡ some n)
unfolding drawer_node selection_deleted
drawer_node-WasSelected s before keyed = (
  λ n h. elim (Option-cases (selected_node s)) [
    | inl gone ↦
        let (held, named) =
          last_if-some (truthy s.selected_id) (drawer before).1 n (ground arith) in
        (
          truthy-some_inv s.selected_id n.id named,
          inr (last-WasSelected before n held),
          ground arith,
        )
    | inr (m, there) ↦
        let now : selected_node s ≡ some n = ground arith in
        (selected_node-id s n keyed now, inl now, ground arith)
  ],
  λ n h. ground arith,
  λ n held gone named. ground (arith, ==_refl n.id),
)
