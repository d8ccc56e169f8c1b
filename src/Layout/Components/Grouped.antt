-- ===== src/Layout/Components/Grouped.antt =====
-- The components that the client lays out are those of the graph (web/src/layout/relationship.ts).
use kd.Common.{
  ℕ, zero, suc, ◌≡◌, refl, sym, ap, ◌∙◌, subst, true, false, ◌⊎◌, inl, inr, ◌↔◌, Option, none, some,
  List, [], ◌∷◌, ◌++◌, append-nil, append_assoc, map, Text, text_eq, ◌==◌, if◌then◌else◌, lookup,
  lookup-insert, insert, contains, filter, length, is_nil, arith, All, All-mono, All-zip,
  Bool-cases, Option-cases, ==_iff, text_beq_iff, ==_refl, Occurs-All, get_elem?,
}
use kd.Types.{KNode, KEdge}
use kd.Layout.Components.{
  Parents, Group, Groups, group_at, climb, own_roots, place_nodes, place_edges,
  connected_components,
}
use kd.Layout.Components.Roots.{Keeps, root-climb, climb-only, find-Keeps}
use kd.Layout.Components.Linked.{Linked, IsForest, climb-within, unite-IsForest, linked-OneRoot}

abbrev pub node_ids : List KNode → List Text
node_ids ns = map (λ n. n.id) ns

own_roots_self :
    (ns : List KNode) (p : Parents) (x : Text)
    → (contains (node_ids ns) x ≡ true) ⊎ (lookup x p ≡ some x)
    → lookup x (own_roots ns p) ≡ some x
unfolding own_roots contains
own_roots_self [] p x (inl has) = cc
own_roots_self [] p x (inr own) = own
own_roots_self (n ∷ ns) p x h =
    own_roots_self ns (insert n.id n.id p) x (elim (Bool-cases (n.id == x)) [
      | inl here ↦ inr (ground (arith, lookup-insert n.id x n.id p, text_beq_iff n.id x))
      | inr later ↦ elim h [
        | inl has ↦ inl (ground arith)
        | inr own ↦ inr (ground (arith, lookup-insert n.id x n.id p))
      ]
    ])

own_roots-IsForest :
    (nodes : List KNode) (edges : List KEdge)
    → IsForest (node_ids nodes) edges 0 (own_roots nodes [])
own_roots-IsForest nodes edges = record {
  rooted = λ x has. (x, root-climb 0 _ x (own_roots_self nodes [] x (inl has)));
  sound = λ x y r has_x has_y up_x up_y.
      subst (λ t. Linked edges x t)
        (climb-only (own_roots nodes []) x r up_x ∙ sym (climb-only (own_roots nodes []) y r up_y))
        Linked.same;
}

group_inserted :
    (here r : Text) (g : Group) (groups : Groups)
    → group_at r (insert here g groups) ≡ (if here == r then g else group_at r groups)
group_inserted here r g groups = ground (arith, lookup-insert here r g groups)

node_added :
    (here r : Text) (n : KNode) (groups : Groups) (xs : List KNode)
    → (group_at r (
          insert here
            (record (group_at here groups) { nodes = (group_at here groups).nodes ++ n ∷ [] })
            groups)).nodes
        ++ xs
      ≡ (group_at r groups).nodes ++ (if here == r then n ∷ xs else xs)
node_added here r n groups xs =
    ap (λ (g : Group). g.nodes ++ xs) (group_inserted here r _ groups)
    ∙ (elim (Bool-cases (here == r)) [
      | inl same ↦ rw same (
          append_assoc (group_at here groups).nodes (n ∷ []) xs
          ∙ ap (λ k. (group_at k groups).nodes ++ n ∷ xs) ((==_iff here r).0 same))
      | inr other ↦ rw other refl
    ])

still_there :
    (here k : Text) (g old : Group) (groups : Groups)
    → lookup k groups ≡ some old
    → (x : Group) × (lookup k (insert here g groups) ≡ some x)
still_there here k g old groups h = elim (Bool-cases (here == k)) [
  | inl same ↦ (g, ground (arith, lookup-insert here k g groups))
  | inr other ↦ (old, ground (arith, lookup-insert here k g groups))
]

edge_added :
    (here r : Text) (g : Group) (e : KEdge) (groups : Groups)
    → lookup here groups ≡ some g
    → (group_at r (insert here (record g { edges = g.edges ++ e ∷ [] }) groups)).nodes
      ≡ (group_at r groups).nodes
edge_added here r g e groups h = ground (
  arith,
  lookup-insert here r (record g { edges = g.edges ++ e ∷ [] }) groups,
  text_beq_iff here r,
)

-- The nodes of each group are those with its root; `root` says where each id climbs to.
module _ (fuel : ℕ) (root : Text → Text) where
  abbrev Rooted : Parents → Text → Type 0
  Rooted p x = climb fuel p x ≡ some (root x)

  abbrev of_root : Text → List KNode → List KNode
  of_root r ns = filter (λ n. root n.id == r) ns

  place_nodes-of_root :
      (ns : List KNode) (p : Parents) (groups : Groups)
      → All (λ n. Rooted p n.id) ns
      → (q : Parents) × (gs : Groups) × (place_nodes fuel ns p groups ≡ some (q, gs))
        × Keeps p q
        × ((r : Text) → (group_at r gs).nodes ≡ (group_at r groups).nodes ++ of_root r ns)
  unfolding place_nodes
  place_nodes-of_root [] p groups h =
      (p, groups, refl, λ k y s g. g, λ r. sym (append-nil (group_at r groups).nodes))
  place_nodes-of_root (n ∷ ns) p groups h =
      let here = root n.id in
      let (t, found, keeps) = find-Keeps fuel p n.id here h.0 in
      let grown : Groups =
        insert here
          (record (group_at here groups) { nodes = (group_at here groups).nodes ++ n ∷ [] })
          groups in
      let (q, gs, placed, more, filled) =
        place_nodes-of_root ns t grown (All-mono ns (λ m up. keeps fuel m.id (root m.id) up) h.1) in
      (
        q,
        gs,
        rw (found, place_nodes) placed,
        λ k y s g. more k y s (keeps k y s g),
        λ r. filled r ∙ node_added here r n groups (of_root r ns),
      )

  place_edges-keeps :
      (es : List KEdge) (p : Parents) (groups : Groups)
      → All (λ e. Rooted p e.from × ((g : Group) × (lookup (root e.from) groups ≡ some g))) es
      → (gs : Groups) × (place_edges fuel es p groups ≡ some gs)
        × ((r : Text) → (group_at r gs).nodes ≡ (group_at r groups).nodes)
  unfolding place_edges
  place_edges-keeps [] p groups h = (groups, refl, λ r. refl)
  place_edges-keeps (e ∷ es) p groups h =
      let here = root e.from in
      let (t, found, keeps) = find-Keeps fuel p e.from here h.0.0 in
      let (g, at) = h.0.1 in
      let grown : Groups = insert here (record g { edges = g.edges ++ e ∷ [] }) groups in
      let (gs, placed, same) = place_edges-keeps es t grown (
        All-mono es
          (λ d (up, (old, there)). (
            keeps fuel d.from (root d.from) up,
            still_there here (root d.from) (record g { edges = g.edges ++ e ∷ [] }) old groups
                there,
          ))
          h.1) in
      (gs, rw (found, place_edges) (rw at placed), λ r. same r ∙ edge_added here r g e groups at)

  has-of_root :
      (ns : List KNode) (x : Text)
      → contains (node_ids ns) x ≡ true
      → is_nil (of_root (root x) ns) ≡ false
  unfolding contains
  has-of_root [] x h = cc
  has-of_root (n ∷ ns) x h = elim (Bool-cases (n.id == x)) [
    | inl here ↦
        let e = ap root ((==_iff n.id x).0 here) in ground (arith, ==_iff (root n.id) (root x))
    | inr later ↦ let more = has-of_root ns x (ground arith) in ground arith
  ]

  filled_group :
      (r : Text) (groups : Groups)
      → is_nil (group_at r groups).nodes ≡ false
      → (g : Group) × (lookup r groups ≡ some g)
  filled_group r groups h = elim (Option-cases (lookup r groups)) [
    | inl gone ↦ absurd (ground arith)
    | inr (g, at) ↦ (g, at)
  ]

-- An id that climbs nowhere stands for itself.
abbrev self_or : Text → Option Text → Text
self_or x none = x
self_or x (some r) = r

occurs-known :
    (ns : List KNode) (i : ℕ) (n : KNode)
    → get_elem? ns i ≡ some n
    → contains (node_ids ns) n.id ≡ true
unfolding contains
occurs-known [] i n at = cc
occurs-known (m ∷ ns) zero n at = let same : m ≡ n = cc in rw same (ground (arith, ==_refl n.id))
occurs-known (m ∷ ns) (suc i) n at = ground (arith, occurs-known ns i n at)

-- The client drops the edges without these ends before.
abbrev pub HasEnds : List KNode → KEdge → Type 0
HasEnds nodes e =
    (contains (node_ids nodes) e.from ≡ true) × (contains (node_ids nodes) e.to ≡ true)

-- The components of a graph whose edges have their ends are found within the fuel. Each node is in the
-- group of its root, in the order of the nodes, and two nodes have one root exactly if some path of
-- edges links them, whichever way the edges point.
pub connected_components_lem :
    (nodes : List KNode) (edges : List KEdge)
    → All (HasEnds nodes) edges
    → (by_root : Groups) × (root : Text → Text) × (connected_components nodes edges
        ≡ some (map (λ g. g.1) by_root))
      × ((r : Text) → (group_at r by_root).nodes ≡ filter (λ n. root n.id == r) nodes)
      × ((x y : Text)
          → contains (node_ids nodes) x ≡ true
          → contains (node_ids nodes) y ≡ true
          → (root x ≡ root y) ↔ Linked edges x y)
unfolding connected_components lookup
connected_components_lem nodes edges ends =
    let ids = node_ids nodes in
    let fuel = length edges in
    let (j, q, united, within, forest, joins, ones) =
      unite-IsForest ids edges edges 0 fuel (own_roots nodes []) (omega arith)
        (own_roots-IsForest nodes edges)
        (All-zip edges (λ e there p. (there, p.0, p.1)) (Occurs-All edges) ends) in
    let root : Text → Text = λ x. self_or x (climb fuel q x) in
    let root_is : (x r : Text) → climb j q x ≡ some r → root x ≡ r =
      λ x r up. ap (self_or x) (climb-within j fuel q x r within up) in
    let rooted : (x : Text) → contains ids x ≡ true → climb fuel q x ≡ some (root x) = λ x has.
      let (r, up) = forest.rooted x has in
      climb-within j fuel q x r within up ∙ ap some (sym (root_is x r up)) in
    let (t, gs, placed, keeps, filled) =
      place_nodes-of_root fuel root nodes q [] (
        All-mono nodes (λ n (i, at). rooted n.id (occurs-known nodes i n at)) (Occurs-All nodes)) in
    let (by_root, done, same_nodes) = place_edges-keeps fuel root edges t gs (
      All-mono edges
        (λ e p. (
          keeps fuel e.from (root e.from) (rooted e.from p.0),
          filled_group fuel root (root e.from) gs
              (ap is_nil (filled (root e.from)) ∙ has-of_root fuel root nodes e.from p.0),
        ))
        ends) in
    (
      by_root,
      root,
      rw (united, connected_components) (rw placed (rw done refl)),
      λ r. same_nodes r ∙ filled r,
      λ x y has_x has_y. (
        λ equal.
            let (r, up_x) = forest.rooted x has_x in
            let (s, up_y) = forest.rooted y has_y in
            let e : s ≡ r = sym (root_is y s up_y) ∙ sym equal ∙ root_is x r up_x in
            forest.sound x y r has_x has_y up_x (up_y ∙ ap some e),
        λ path. elim (linked-OneRoot ids edges j q x y ones path) [
          | inl equal ↦ ap root equal
          | inr (r, up_x, up_y) ↦ root_is x r up_x ∙ sym (root_is y r up_y)
        ],
      ),
    )
