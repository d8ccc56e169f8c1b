-- ===== src/Layout/Hubs/Claims.antt =====
-- Which leaves `findHubs` of web/src/layout/hubs.ts gives to a parent, and how often.
use mathlib.Core.List.{Perm, foldr}
use mathlib.Core.List.Perm
use native.Mathlib.Nat.{ℕ_set}
use kd.Common.{
  ℕ, suc, ◌+◌, ◌≤◌, ◌≡◌, refl, sym, ap, ◌∙◌, Bool, true, false, not, ◌&&◌, Option, none, some, List,
  [], ◌∷◌, ◌++◌, Text, text_eq, nat_eq, ◌==◌, if◌then◌else◌, any, lookup, lookup-insert, insert,
  arith, text_beq_iff,
}
use kd.Types.{KNode, KEdge, or_empty}
use kd.Layout.{FoldNode}
use kd.Layout.Blocks.{push_at}
use kd.Layout.Hubs.{
  index_nodes, degree, count_out, is_wrappable, parents_from, primary_from, claim, children_from,
  children_of,
}
use kd.KindStats.Hub.{flat, flat-insert}

-- How many nodes of the list have the id.
abbrev pub times : Text → List KNode → ℕ
times k [] = 0
times k (n ∷ ns) = if n.id == k then suc (times k ns) else times k ns

count_id : Text → KNode → ℕ → ℕ
count_id k n rest = if n.id == k then suc rest else rest

foldr-times : (k : Text) (ns : List KNode) → foldr (count_id k) 0 ns ≡ times k ns
unfolding count_id
foldr-times k [] = refl
foldr-times k (n ∷ ns) = ground (arith, foldr-times k ns)

count_id_comm :
    (k : Text) (n m : KNode) (c : ℕ) → count_id k n (count_id k m c) ≡ count_id k m (count_id k n c)
unfolding count_id
count_id_comm k n m c = ground arith

pub times-perm : (k : Text) {ns ms : List KNode} → Perm ns ms → times k ns ≡ times k ms
times-perm k {ns} {ms} p =
    sym (foldr-times k ns)
    ∙ Perm.foldr-eq ℕ_set (count_id k) (count_id_comm k) p 0
    ∙ foldr-times k ms

pub times-append : (k : Text) (ns ms : List KNode) → times k (ns ++ ms) ≡ times k ns + times k ms
times-append k [] ms = omega arith
times-append k (n ∷ ns) ms = ground (arith, times-append k ns ms)

-- How many entries have the key.
abbrev keyed {ℓ} : {V : Type ℓ} → Text → List (Text × V) → ℕ
keyed k [] = 0
keyed k (x ∷ xs) = if x.0 == k then suc (keyed k xs) else keyed k xs

keyed-insert :
    {V : Type 0} (k j : Text) (new : V) (m : List (Text × V))
    → keyed k (insert j new m) ≡ (if j == k && keyed k m == 0 then 1 else keyed k m)
unfolding insert
keyed-insert k j new [] = ground arith
keyed-insert k j new ((i, old) ∷ m) =
    ground (arith, keyed-insert k j new m, text_beq_iff i j, text_beq_iff i k, text_beq_iff j k)

abbrev pub one_if : Bool → ℕ
one_if true = 1
one_if false = 0

-- The leaves with a parent, each once.
keyed-parents_from :
    (by_id : List (Text × FoldNode)) (outdeg : List (Text × ℕ)) (es : List KEdge)
    (parents : List (Text × List KEdge)) (k : Text)
    → keyed k parents ≤ one_if (is_wrappable outdeg k (lookup k by_id))
    → keyed k (parents_from by_id outdeg es parents)
      ≤ one_if (is_wrappable outdeg k (lookup k by_id))
unfolding parents_from
keyed-parents_from by_id outdeg [] parents k h = h
keyed-parents_from by_id outdeg (e ∷ es) parents k h = keyed-parents_from by_id outdeg es _ k step
  where
    step :
        keyed k
          (if is_wrappable outdeg e.to (lookup e.to by_id) then push_at e.to e parents else parents)
        ≤ one_if (is_wrappable outdeg k (lookup k by_id))
    step = ground (
      arith,
      h,
      keyed-insert k e.to (or_empty (lookup e.to parents) ++ e ∷ []) parents,
      text_beq_iff e.to k,
      ap (λ x. is_wrappable outdeg x (lookup x by_id)),
    )

abbrev IsIndex : List (Text × FoldNode) → Type 0
IsIndex entries = (id : Text) (leaf : FoldNode) → lookup id entries ≡ some leaf → leaf.node.id ≡ id

index_nodes-IsIndex :
    (ns : List FoldNode) (entries : List (Text × FoldNode))
    → IsIndex entries
    → IsIndex (index_nodes ns entries)
unfolding index_nodes
index_nodes-IsIndex [] entries h = h
index_nodes-IsIndex (n ∷ ns) entries h =
    index_nodes-IsIndex ns (insert n.node.id n entries) (λ id leaf e.
      ground (arith, lookup-insert n.node.id id n entries, text_beq_iff n.node.id id, h id leaf))

times-claim :
    (leaf_id k : Text) (o : Option FoldNode) (es : List KEdge) (children : List (Text × List KNode))
    → ((leaf : FoldNode) → o ≡ some leaf → leaf.node.id ≡ leaf_id)
    → times k (flat (claim leaf_id o es children)) ≤ times k (flat children) + one_if (leaf_id == k)
unfolding claim
times-claim leaf_id k none es children h = omega arith
times-claim leaf_id k (some leaf) [] children h = omega arith
times-claim leaf_id k (some leaf) (e ∷ es) children h =
    let parent = (primary_from e es).from in
    ground (
      arith,
      times-perm k (flat-insert parent leaf.node (lookup parent children) children refl),
      h leaf refl,
    )

times-children_from :
    (by_id : List (Text × FoldNode)) (k : Text)
    → IsIndex by_id
    → (parents : List (Text × List KEdge)) (children : List (Text × List KNode))
    → times k (flat (children_from by_id parents children))
      ≤ times k (flat children) + keyed k parents
unfolding children_from
times-children_from by_id k index [] children = omega arith
times-children_from by_id k index ((leaf_id, es) ∷ parents) children = ground (
  arith,
  times-children_from by_id k index parents (claim leaf_id (lookup leaf_id by_id) es children),
  times-claim leaf_id k (lookup leaf_id by_id) es children (index leaf_id),
)

-- No edge of the view comes from the node.
abbrev pub is_childless : List KEdge → Text → Bool
is_childless es k = not (any (λ e. e.from == k) es)

degree-count_out :
    (k : Text) (es : List KEdge) (outdeg : List (Text × ℕ))
    → degree k (count_out es outdeg) ≡ 0
    → (degree k outdeg ≡ 0) × (is_childless es k ≡ true)
unfolding count_out
degree-count_out k [] outdeg h = (h, refl)
degree-count_out k (e ∷ es) outdeg h = ground (
  arith,
  degree-count_out k es (insert e.from (degree e.from outdeg + 1) outdeg) h,
  lookup-insert e.from k (degree e.from outdeg + 1) outdeg,
)

-- A node is the child of at most one parent, and of one only if it has no child itself.
pub times-children_of :
    (nodes : List FoldNode) (edges : List KEdge) (k : Text)
    → times k (flat (children_of nodes edges)) ≤ one_if (is_childless edges k)
unfolding children_of lookup is_wrappable
times-children_of nodes edges k =
    let by_id = index_nodes nodes [] in
    let outdeg = count_out edges [] in
    ground (
      arith,
      times-children_from by_id k (index_nodes-IsIndex nodes [] (λ id leaf e. cc))
          (parents_from by_id outdeg edges []) [],
      keyed-parents_from by_id outdeg edges [] k,
      degree-count_out k edges [],
    )
