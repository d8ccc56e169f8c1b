-- ===== src/Rollup/Pods.antt =====
-- `descendantPods` of web/src/loggable.ts finds the pods below a resource.
use kd.Common.{
  ℕ, zero, suc, ◌≡◌, refl, sym, ap, ◌∙◌, subst, true, some, List, [], ◌∷◌, Text, text_eq, ◌==◌,
  contains, length, arith, Bool-cases, List-cases, inl, inr, ◌↔◌, All, All-mono, All-zip, ==_iff,
  ==_refl, Occurs-All, get_elem?-All,
}
use mathlib.Core.Bool.{So-prop}
use mathlib.Core.Logic.{∥∥₁_elim}
use kd.Types.{KNode}
use kd.Rollup.{Walk, children_by_owner, visit_all, walk, begun, descendant_pods}
use kd.Rollup.Rounds.{kids, ids, children_by_owner-kids, kids-All, walk_returns}
use kd.Rollup.Below.{Below, is_pod, there, IsTyped, kids-reach, child, under}
use kd.Rollup.Steps.{
  Settled, Collected, Inner, Inv, IsTypedNode, visit_all-Grows, visit_all-sees, inner-of,
  visit_all-keeps, kids-Fit, round-Settled,
}

module _ (nodes : List KNode) (root : Text) (typed : IsTyped nodes) where
  Inv-begun : Inv nodes root typed (begun root)
  unfolding contains Inner
  Inv-begun = record {
    found = tt;
    inner = (inl refl, tt);
    settled = All-mono nodes (λ n h u owned goes. inl (ground arith)) (Occurs-All nodes);
    collected = All-mono nodes (λ n h pod seen. cc) (Occurs-All nodes);
  }

  Inv-round :
      (w : Walk) (cur : Text) (rest : List Text)
      → w.stack ≡ cur ∷ rest
      → Inv nodes root typed w
      → Inv nodes root typed (visit_all (kids cur nodes) (record w { stack = rest }))
  Inv-round w cur rest q inv =
      let popped : Walk = record w { stack = rest } in
      let inners : All (Inner nodes root typed) (cur ∷ rest) =
        subst (All (Inner nodes root typed)) q inv.inner in
      let kids_typed = kids-All (IsTypedNode nodes root typed) cur nodes typed in
      let (found, inner, collected) =
        visit_all-keeps nodes root typed (kids cur nodes) popped
          (kids-Fit nodes root typed cur inners.0) inv.found inners.1 inv.collected in
      record {
        found = found;
        inner = inner;
        settled =
            All-zip nodes
              (λ n old covers.
                round-Settled nodes root typed w cur rest n q old covers
                  (visit_all-Grows nodes root typed (kids cur nodes) popped kids_typed))
              inv.settled
              (kids-reach _ cur nodes
                (visit_all-sees nodes root typed (kids cur nodes) popped kids_typed));
        collected = collected;
      }

  walk-Inv :
      (fuel : ℕ) (w t : Walk)
      → Inv nodes root typed w
      → walk fuel (children_by_owner nodes) w ≡ some t
      → Inv nodes root typed t × (t.stack ≡ [])
  unfolding walk
  walk-Inv zero w t inv h = elim (List-cases w.stack) [
    | inl empty ↦
        let same : w ≡ t = ground arith in
        (subst (Inv nodes root typed) same inv, ap (λ (x : Walk). x.stack) (sym same) ∙ empty)
    | inr (cur, rest, q) ↦ ground arith
  ]
  walk-Inv (suc fuel) w t inv h = elim (List-cases w.stack) [
    | inl empty ↦
        let same : w ≡ t = ground arith in
        (subst (Inv nodes root typed) same inv, ap (λ (x : Walk). x.stack) (sym same) ∙ empty)
    | inr (cur, rest, q) ↦
        walk-Inv fuel (visit_all (kids cur nodes) (record w { stack = rest })) t
          (Inv-round w cur rest q inv) (rw (← children_by_owner-kids nodes cur) (rw (q, walk) at h))
  ]

  -- With an empty stack, all that is below has been seen.
  sees :
      (t : Walk)
      → Inv nodes root typed t
      → t.stack ≡ []
      → {n : KNode} → Below nodes root n
      → contains t.seen n.id ≡ true
  unfolding contains
  sees t inv q (child {n} o owned) =
      elim (get_elem?-All (Settled nodes root typed t) nodes o.0 n o.1 inv.settled root owned
        (ground (arith, ==_refl root))) [
          | inl waits ↦ ground (arith, ap (λ (l : List Text). contains l root) q)
          | inr seen ↦ seen
        ]
  sees t inv q (under {m} {n} below other o owned) =
      elim (get_elem?-All (Settled nodes root typed t) nodes o.0 n o.1 inv.settled m.id owned
        (ground (arith, sees t inv q below, inner-of nodes root typed m (there below) other))) [
          | inl waits ↦ ground (arith, ap (λ (l : List Text). contains l m.id) q)
          | inr seen ↦ seen
        ]

-- A pod of that id below the root.
abbrev pub PodBelow : List KNode → Text → Text → Type 0
PodBelow nodes root k = (m : KNode) × (m.id ≡ k) × (is_pod m ≡ true) × Below nodes root m

of_pods :
    (nodes : List KNode) (root k : Text) (ps : List KNode)
    → All (λ n. (is_pod n ≡ true) × Below nodes root n) ps
    → contains (ids ps) k ≡ true
    → PodBelow nodes root k
unfolding contains
of_pods nodes root k [] h m = cc
of_pods nodes root k (p ∷ ps) h m = elim (Bool-cases (p.id == k)) [
  | inl same ↦ (p, (==_iff p.id k).0 same, h.0.0, h.0.1)
  | inr other ↦ of_pods nodes root k ps h.1 (ground arith)
]

-- Where no id is that of a pod and of another resource, the walk returns; each node that it gives is a
-- pod that the root owns, by itself or through a chain of owners that are no pods, and their ids are
-- exactly those of such pods.
pub descendant_pods_lem :
    (root_id : Text) (nodes : List KNode)
    → IsTyped nodes
    → (pods : List KNode) × (descendant_pods root_id nodes ≡ some pods)
      × All (λ n. (is_pod n ≡ true) × Below nodes root_id n) pods
      × ((k : Text) → (contains (ids pods) k ≡ true) ↔ ∥ PodBelow nodes root_id k ∥₁)
unfolding descendant_pods
descendant_pods_lem root_id nodes typed =
    let (t, e) = walk_returns nodes root_id in
    let (inv, q) =
      walk-Inv nodes root_id typed (suc (length nodes)) (begun root_id) t
        (Inv-begun nodes root_id typed) e in
    (
      t.pods,
      rw (e, descendant_pods) refl,
      inv.found,
      λ k. (
        λ c. ∣ of_pods nodes root_id k t.pods inv.found c ∣₁,
        λ below. ∥∥₁_elim below (So-prop _) (λ (m, same, pod, b).
            subst (λ x. contains (ids t.pods) x ≡ true) same
              (get_elem?-All (Collected nodes root_id typed t) nodes (there b).0 m (there b).1
                inv.collected pod (sees nodes root_id typed t inv q b))),
      ),
    )
