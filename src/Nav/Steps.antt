-- ===== src/Nav/Steps.antt =====
-- Stepping through the nodes by keyboard, as web/src/nav.ts orders them.
use native.Mathlib.Nat.{mod-lt, add-mod_right}
use kd.Common.{
  ℕ, zero, suc, ◌+◌, ◌-◌, ◌%◌, ◌<◌, ◌≡◌, ◌≢◌, refl, ap, ◌∙◌, Option, some, List, [], ◌∷◌, Text,
  text_eq, text_beq_iff, forward_back, back_forward, length, get_elem?, get_elem?-All, get_elem?_lt,
  DistinctBy, DistinctBy-sort, Ordering, sort-All, All, arith,
}
use kd.Types.{KNode, truthy}
use kd.Nav.{
  index_by_id, current_index, Direction, step_index, landing_index, id_of, nav_order,
  ordered_for_nav, next_selection,
}

-- No two nodes have one identifier.
abbrev pub DistinctIds : List KNode → Type 0
DistinctIds ns = DistinctBy (λ n. n.id) ns

index_by_id-get :
    (i k : ℕ) (ns : List KNode) (n : KNode)
    → DistinctIds ns
    → get_elem? ns k ≡ some n
    → index_by_id n.id i ns ≡ some (i + k)
unfolding index_by_id
index_by_id-get i k [] n d h = cc
index_by_id-get i zero (x ∷ ns) n d h = ground (arith, text_beq_iff x.id n.id)
index_by_id-get i (suc k) (x ∷ ns) n d h = ground (
  arith,
  index_by_id-get (suc i) k ns n d.1 h,
  get_elem?-All (λ (y : KNode). y.id ≢ x.id) ns k n h d.0,
  text_beq_iff x.id n.id,
)

truthy_id : (id : Text) → id ≢ [] → truthy (some id) ≡ some id
truthy_id [] h = absurd (h refl)
truthy_id (c ∷ id) h = refl

get_some : (ns : List KNode) (i : ℕ) → i < length ns → (n : KNode) × (get_elem? ns i ≡ some n)
get_some [] i h = absurd (omega arith)
get_some (x ∷ ns) zero h = (x, refl)
get_some (x ∷ ns) (suc i) h = get_some ns i (omega arith)

module _ (locale_compare numeric_compare : Text → Text → Ordering) where
  abbrev go : List KNode → Option Text → Direction → Option Text
  go nodes current dir = next_selection locale_compare numeric_compare nodes current dir

  abbrev order : List KNode → List KNode
  order nodes = ordered_for_nav locale_compare numeric_compare nodes

  -- A step from the node that stands at `i` in the order.
  step_from :
      (nodes : List KNode) (dir : Direction) (i : ℕ) (n : KNode)
      → DistinctIds (order nodes)
      → n.id ≢ []
      → get_elem? (order nodes) i ≡ some n
      → go nodes (some n.id) dir
        ≡ id_of (get_elem? (order nodes) (step_index dir i (length (order nodes))))
  unfolding next_selection
  step_from nodes dir i n d ne h =
      let at : current_index (truthy (some n.id)) (order nodes) ≡ some i =
        ap (λ o. current_index o (order nodes)) (truthy_id n.id ne)
        ∙ index_by_id-get 0 i (order nodes) n d h
        ∙ ap some (omega arith) in
      ap (λ o. id_of (get_elem? (order nodes) (landing_index dir o (length (order nodes))))) at

  order-Distinct : (nodes : List KNode) → DistinctIds nodes → DistinctIds (order nodes)
  unfolding ordered_for_nav
  order-Distinct nodes d =
      DistinctBy-sort (λ (n : KNode). n.id) (nav_order locale_compare numeric_compare) nodes d

  order-All : (P : KNode → Type 0) (nodes : List KNode) → All P nodes → All P (order nodes)
  unfolding ordered_for_nav
  order-All P nodes h = sort-All (nav_order locale_compare numeric_compare) P nodes h

  -- A step that leads to an index, and the step back.
  there_and_back :
      (nodes : List KNode) (dir back : Direction) (i j : ℕ) (n m : KNode)
      → DistinctIds (order nodes)
      → All (λ (x : KNode). x.id ≢ []) (order nodes)
      → get_elem? (order nodes) i ≡ some n
      → get_elem? (order nodes) j ≡ some m
      → step_index dir i (length (order nodes)) ≡ j
      → step_index back j (length (order nodes)) ≡ i
      → go nodes (go nodes (some n.id) dir) back ≡ some n.id
  there_and_back nodes dir back i j n m d ne hi hj there home =
      let filled : (k : ℕ) (x : KNode) → get_elem? (order nodes) k ≡ some x → x.id ≢ [] =
        λ k x e. get_elem?-All (λ (y : KNode). y.id ≢ []) (order nodes) k x e ne in
      ap (λ o. go nodes o back)
        (step_from nodes dir i n d (filled i n hi) hi
          ∙ ap (λ (k : ℕ). id_of (get_elem? (order nodes) k)) there
          ∙ ap id_of hj)
      ∙ step_from nodes back j m d (filled j m hj) hj
      ∙ ap (λ (k : ℕ). id_of (get_elem? (order nodes) k)) home
      ∙ ap id_of hi

  -- With distinct identifiers, none of them empty, a step back from where a step forward led is at the
  -- node that one started from, over the ends of the order too, and so is a step forward after one
  -- back.
  pub next_selection-inverse :
      (nodes : List KNode) (i : ℕ) (n : KNode)
      → DistinctIds nodes
      → All (λ (x : KNode). x.id ≢ []) nodes
      → get_elem? (ordered_for_nav locale_compare numeric_compare nodes) i ≡ some n
      → (next_selection locale_compare numeric_compare nodes
            (next_selection locale_compare numeric_compare nodes (some n.id) Direction.next)
            Direction.previous
          ≡ some n.id)
        × (next_selection locale_compare numeric_compare nodes
              (next_selection locale_compare numeric_compare nodes (some n.id) Direction.previous)
              Direction.next
            ≡ some n.id)
  next_selection-inverse nodes i n d ne h =
      let len = length (order nodes) in
      let lt : i < len = get_elem?_lt (order nodes) i n h in
      let pos : 0 < len = omega arith in
      let fwd : step_index Direction.next i len ≡ (i + 1) % len = add-mod_right (i + 1) len in
      let f : step_index Direction.next i len < len = mod-lt (i + 1 + len) pos in
      let b : step_index Direction.previous i len < len = mod-lt (i + len - 1) pos in
      let (m, hm) = get_some (order nodes) (step_index Direction.next i len) f in
      let (k, hk) = get_some (order nodes) (step_index Direction.previous i len) b in
      let dd = order-Distinct nodes d in
      let nn = order-All (λ (x : KNode). x.id ≢ []) nodes ne in
      (
        there_and_back nodes Direction.next Direction.previous i (step_index Direction.next i len) n
            m dd nn h hm refl (ap (λ (j : ℕ). (j + len - 1) % len) fwd ∙ forward_back i len lt),
        there_and_back nodes Direction.previous Direction.next i
            (step_index Direction.previous i len) n k dd nn h hk refl
            (add-mod_right (step_index Direction.previous i len + 1) len ∙ back_forward i len lt),
      )
