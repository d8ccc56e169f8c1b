-- ===== src/Layout/Components.antt =====
-- `connectedComponents` of web/src/layout/relationship.ts: the trees of the canvas, by union and find.
pub mod Roots
pub mod Linked
pub mod Grouped
use kd.Common.{
  ℕ, zero, suc, Option, none, some, List, [], ◌∷◌, ◌++◌, Text, text_eq, ◌==◌, if◌then◌else◌, map,
  lookup, insert, length,
}
use kd.Types.{KNode, KEdge}

-- `parent`.
abbrev pub Parents : Type 0
Parents = List (Text × Text)

-- The first loop of `find`; `none` where the fuel runs out, or for an id that is no node.
unfoldable pub climb : ℕ → Parents → Text → Option Text
climb zero parent r = elim (lookup r parent) [
  | none ↦ none
  | some up ↦ if up == r then some r else none
]
climb (suc fuel) parent r = elim (lookup r parent) [
  | none ↦ none
  | some up ↦ (let above = climb fuel parent up in if up == r then some r else above)
]

-- The second loop, which hangs what it passes under the root.
unfoldable pub compress : ℕ → Text → Parents → Text → Option Parents
compress zero r parent x = elim (lookup x parent) [
  | none ↦ none
  | some up ↦ if up == r then some parent else none
]
compress (suc fuel) r parent x = elim (lookup x parent) [
  | none ↦ none
  | some up ↦
      (let rest = compress fuel r (insert x r parent) up in if up == r then some parent else rest)
]

unfoldable pub find : ℕ → Text → Parents → Option (Text × Parents)
find fuel x parent = elim (climb fuel parent x) [
  | none ↦ none
  | some r ↦ (elim (compress fuel r parent x) [ none ↦ none | some flatter ↦ some (r, flatter) ])
]

-- `parent.set(find(a), find(b))`
unfoldable pub union : ℕ → Text → Text → Parents → Option Parents
union fuel a b parent = elim (find fuel a parent) [
  | none ↦ none
  | some (above_a, first) ↦ (elim (find fuel b first) [
    | none ↦ none
    | some (above_b, second) ↦ some (insert above_a above_b second)
  ])
]

unfoldable pub unite : ℕ → List KEdge → Parents → Option Parents
unite fuel [] parent = some parent
unite fuel (e ∷ es) parent = elim (union fuel e.from e.to parent) [
  | none ↦ none
  | some joined ↦ unite fuel es joined
]

-- Each node starts as its own root.
unfoldable pub own_roots : List KNode → Parents → Parents
own_roots [] parent = parent
own_roots (n ∷ ns) parent = own_roots ns (insert n.id n.id parent)

pub record Group : Type 0 where
  pub nodes : List KNode
  pub edges : List KEdge

abbrev pub Groups : Type 0
Groups = List (Text × Group)

abbrev pub group_at : Text → Groups → Group
group_at r groups = elim (lookup r groups) [ none ↦ record { nodes = []; edges = [] } | some g ↦ g ]

unfoldable pub place_nodes : ℕ → List KNode → Parents → Groups → Option (Parents × Groups)
place_nodes fuel [] parent groups = some (parent, groups)
place_nodes fuel (n ∷ ns) parent groups = elim (find fuel n.id parent) [
  | none ↦ none
  | some (r, flatter) ↦
      place_nodes fuel ns flatter (
        insert r (record (group_at r groups) { nodes = (group_at r groups).nodes ++ n ∷ [] })
          groups)
]

unfoldable pub place_edges : ℕ → List KEdge → Parents → Groups → Option Groups
place_edges fuel [] parent groups = some groups
place_edges fuel (e ∷ es) parent groups = elim (find fuel e.from parent) [
  | none ↦ none
  | some (r, flatter) ↦ (elim (lookup r groups) [
    | none ↦ none
    | some g ↦
        place_edges fuel es flatter (insert r (record g { edges = g.edges ++ e ∷ [] }) groups)
  ])
]

-- The fuel is one round per edge: each union makes no path longer than by one step.
unfoldable pub connected_components : List KNode → List KEdge → Option (List Group)
connected_components nodes edges =
    let fuel = length edges in
    (elim (unite fuel edges (own_roots nodes [])) [
      | none ↦ none
      | some parent ↦ (elim (place_nodes fuel nodes parent []) [
        | none ↦ none
        | some (flatter, groups) ↦ (elim (place_edges fuel edges flatter groups) [
          | none ↦ none
          | some by_root ↦ some (map (λ g. g.1) by_root)
        ])
      ])
    ])
