-- ===== src/Names/Parents.antt =====
-- Which parent a node's name is shown relative to (prefixParentNames of web/src/names.ts).
use kd.Common.{
  ℕ, suc, ◌≤◌, ◌≡◌, refl, true, false, Option, none, some, List, [], ◌∷◌, Text, text_eq, length,
  lookup, insert, lookup-insert, arith, Occurs, get_elem?, Bool-cases, ◌&&◌, sym, zero, ==_refl,
  ==_iff, inl, inr, ◌==◌,
}
use kd.Types.{KNode, KEdge}
use kd.Names.{is_child_name, is_closer, set_parent, add_parents, names_from, prefix_parent_names}

-- How long the name is, one more than its length; 0 without a name.
abbrev rank : Option Text → ℕ
rank none = 0
rank (some p) = suc (length p)

closer-rank :
    (parent : Text) (cur : Option Text)
    → is_closer parent cur ≡ true
    → rank cur ≤ suc (length parent)
closer-rank parent none h = omega arith
closer-rank parent (some cur) h = ground arith

far-rank :
    (parent : Text) (cur : Option Text)
    → is_closer parent cur ≡ false
    → suc (length parent) ≤ rank cur
far-rank parent none h = cc
far-rank parent (some cur) h = ground arith

insert-closer :
    (to id parent : Text) (parents : List (Text × Text))
    → is_closer parent (lookup to parents) ≡ true
    → rank (lookup id parents) ≤ rank (lookup id (insert to parent parents))
insert-closer to id parent parents h = ground (
  arith,
  lookup-insert to id parent parents,
  ==_iff to id,
  closer-rank parent (lookup to parents),
)

set_parent-grows :
    (to id : Text) (parent child : Option Text) (parents : List (Text × Text))
    → rank (lookup id parents) ≤ rank (lookup id (set_parent to parent child parents))
unfolding set_parent
set_parent-grows to id none child parents = ground arith
set_parent-grows to id (some parent) none parents = ground arith
set_parent-grows to id (some parent) (some child) parents =
    ground (arith, insert-closer to id parent parents)

set_parent-reaches :
    (to parent child : Text) (parents : List (Text × Text))
    → is_child_name parent child ≡ true
    → suc (length parent) ≤ rank (lookup to (set_parent to (some parent) (some child) parents))
unfolding set_parent
set_parent-reaches to parent child parents h =
    ground
      (arith, lookup-insert to to parent parents, ==_refl to, far-rank parent (lookup to parents))

add_parents-grows :
    (names : List (Text × Text)) (edges : List KEdge) (parents : List (Text × Text)) (id : Text)
    → rank (lookup id parents) ≤ rank (lookup id (add_parents names edges parents))
unfolding add_parents
add_parents-grows names [] parents id = ground arith
add_parents-grows names (e ∷ edges) parents id = ground (
  arith,
  set_parent-grows e.to id (lookup e.from names) (lookup e.to names) parents,
  add_parents-grows names edges (set_parent e.to (lookup e.from names) (lookup e.to names) parents)
      id,
)

add_parents-reaches :
    (names : List (Text × Text)) (edges : List KEdge) (parents : List (Text × Text)) (i : ℕ)
    (e : KEdge) (parent child : Text)
    → get_elem? edges i ≡ some e
    → lookup e.from names ≡ some parent
    → lookup e.to names ≡ some child
    → is_child_name parent child ≡ true
    → suc (length parent) ≤ rank (lookup e.to (add_parents names edges parents))
unfolding add_parents
add_parents-reaches names [] parents i e parent child at from to h = cc
add_parents-reaches names (e' ∷ edges) parents zero e parent child at from to h =
    let same : e' ≡ e = cc in
    let step = set_parent-reaches e.to parent child parents h in
    let later =
      add_parents-grows names edges (set_parent e.to (some parent) (some child) parents) e.to in
    rw (same, from, to) (omega arith)
add_parents-reaches names (e' ∷ edges) parents (suc i) e parent child at from to h =
    add_parents-reaches names edges _ i e parent child at from to h

rank-some : (o : Option Text) (n : ℕ) → suc n ≤ rank o → (p : Text) × (o ≡ some p) × (n ≤ length p)
rank-some none n h = absurd (omega arith)
rank-some (some p) n h = (p, refl, omega arith)

-- An entry of the map is the name of the source of an edge to the node, whose own name it starts.
abbrev pub IsParent : List (Text × Text) → List KEdge → Text → Text → Type 0
IsParent names edges id p =
    (e : KEdge) × (child : Text) × Occurs e edges
    × (e.to ≡ id)
    × (lookup e.from names ≡ some p)
    × (lookup e.to names ≡ some child)
    × (is_child_name p child ≡ true)

set_parent-holds {ℓ} :
    (Q : Text → Text → Type ℓ) (to : Text) (parent child : Option Text)
    (parents : List (Text × Text))
    → ((p c : Text) → parent ≡ some p → child ≡ some c → is_child_name p c ≡ true → Q to p)
    → ((id p : Text) → lookup id parents ≡ some p → Q id p)
    → (id p : Text) → lookup id (set_parent to parent child parents) ≡ some p
    → Q id p
unfolding set_parent
set_parent-holds Q to none child parents new old id p h = old id p h
set_parent-holds Q to (some parent) none parents new old id p h = old id p h
set_parent-holds Q to (some parent) (some child) parents new old id p h =
    elim (Bool-cases (is_child_name parent child && is_closer parent (lookup to parents))) [
      | inl passes ↦ elim (Bool-cases (to == id)) [
        | inl hit ↦
            let same : to ≡ id = (==_iff to id).0 hit in
            let is : parent ≡ p = ground (arith, lookup-insert to id parent parents) in
            rw (sym same, sym is) (new parent child refl refl (ground arith))
        | inr miss ↦ old id p (ground (arith, lookup-insert to id parent parents))
      ]
      | inr fails ↦ old id p (ground arith)
    ]

add_parents-holds {ℓ} :
    (Q : Text → Text → Type ℓ) (names : List (Text × Text)) (edges : List KEdge)
    (parents : List (Text × Text))
    → ((e : KEdge) (p c : Text)
        → Occurs e edges
        → lookup e.from names ≡ some p
        → lookup e.to names ≡ some c
        → is_child_name p c ≡ true
        → Q e.to p)
    → ((id p : Text) → lookup id parents ≡ some p → Q id p)
    → (id p : Text) → lookup id (add_parents names edges parents) ≡ some p
    → Q id p
unfolding add_parents
add_parents-holds Q names [] parents new old id p h = old id p h
add_parents-holds Q names (e ∷ edges) parents new old id p h =
    add_parents-holds Q names edges _ (λ d q c at. new d q c (suc at.0, at.1))
      (set_parent-holds Q e.to (lookup e.from names) (lookup e.to names) parents
        (λ q c. new e q c (0, refl)) old)
      id p h

-- Where an edge leads from a node to one whose name extends the first one's by a hyphen and more,
-- the second node has an entry in the map: the name of such a parent, and no such edge to the node
-- comes from a longer name.
pub prefix_parent_names_lem :
    (nodes : List KNode) (edges : List KEdge) (e : KEdge) (parent child : Text)
    → Occurs e edges
    → lookup e.from (names_from nodes []) ≡ some parent
    → lookup e.to (names_from nodes []) ≡ some child
    → is_child_name parent child ≡ true
    → (p : Text) × (lookup e.to (prefix_parent_names nodes edges) ≡ some p)
      × (length parent ≤ length p)
      × IsParent (names_from nodes []) edges e.to p
unfolding prefix_parent_names lookup
prefix_parent_names_lem nodes edges e parent child at from to h =
    let names = names_from nodes [] in
    let found =
      rank-some _ (length parent)
        (add_parents-reaches names edges [] at.0 e parent child at.1 from to h) in
    (
      found.0,
      found.1,
      found.2,
      add_parents-holds (IsParent names edges) names edges []
          (λ d q c occurs starts ends ok. (d, c, occurs, refl, starts, ends, ok)) (λ id q k. cc)
          e.to found.0 found.1,
    )
