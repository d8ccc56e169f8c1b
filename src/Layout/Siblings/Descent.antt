-- ===== src/Layout/Siblings/Descent.antt =====
-- The descent of `foldSiblingSubtrees` (web/src/layout/collapse.ts) ends.
use kd.Common.{
  ℕ, zero, suc, ◌+◌, ◌≤◌, ◌≡◌, refl, ap, true, false, ◌&&◌, All-mono, some, List, [], ◌∷◌, ◌++◌,
  map, Text, text_eq, ◌==◌, if◌then◌else◌, lookup, lookup-insert, add, contains, contains-add,
  length, length-append, length-map, text_beq_iff, ==_refl, List-cases, Bool-cases, inl, inr, All,
  All-append, arith,
}
use kd.Types.{KNode, KEdge, or_empty}
use kd.Layout.Blocks.{push_at}
use kd.Layout.Siblings.{
  Walk, is_known, child_edges_from, descend_edge, descend_edges, descend, root_set, descendants_of,
}

-- The edges whose target has not been seen.
abbrev unseen : List Text → List KEdge → ℕ
unseen seen [] = 0
unseen seen (e ∷ es) = if contains seen e.to then unseen seen es else suc (unseen seen es)

unseen-add-le :
    (seen : List Text) (k : Text) (es : List KEdge) → unseen (add seen k) es ≤ unseen seen es
unseen-add-le seen k [] = omega arith
unseen-add-le seen k (e ∷ es) = ground (arith, unseen-add-le seen k es, contains-add seen k e.to)

abbrev targets : List KEdge → List Text
targets es = map (λ e. e.to) es

unseen-add-lt :
    (seen : List Text) (es : List KEdge) (k : Text)
    → contains seen k ≡ false
    → contains (targets es) k ≡ true
    → suc (unseen (add seen k) es) ≤ unseen seen es
unfolding contains
unseen-add-lt seen [] k h m = cc
unseen-add-lt seen (e ∷ es) k h m = ground (
  arith,
  unseen-add-lt seen es k h,
  unseen-add-le seen k es,
  contains-add seen k e.to,
  text_beq_iff e.to k,
)

unseen-le : (seen : List Text) (es : List KEdge) → unseen seen es ≤ length es
unseen-le seen [] = omega arith
unseen-le seen (e ∷ es) = ground (arith, unseen-le seen es)

module _ (by_id : List (Text × KNode)) (edges : List KEdge) where
  abbrev work : Walk → ℕ
  work w = unseen w.seen edges + length w.queue

  -- The targets are targets of the given edges.
  abbrev Within : List KEdge → Type 0
  Within es = All (λ e. contains (targets edges) e.to ≡ true) es

  descend_edge-work :
      (e : KEdge) (w : Walk)
      → contains (targets edges) e.to ≡ true
      → work (descend_edge by_id e w) ≤ work w
  unfolding descend_edge
  descend_edge-work e w m =
      ground (arith, unseen-add-lt w.seen edges e.to, length-append w.queue (e.to ∷ []))

  descend_edges-work :
      (es : List KEdge) (w : Walk) → Within es → work (descend_edges by_id es w) ≤ work w
  unfolding descend_edges
  descend_edges-work [] w h = omega arith
  descend_edges-work (e ∷ es) w h =
      omega (arith, descend_edges-work es (descend_edge by_id e w) h.1, descend_edge-work e w h.0)

  module _ (child_edges_of : List (Text × List KEdge))
      (within : (id : Text) → Within (or_empty (lookup id child_edges_of))) where
    descend_ends :
        (fuel : ℕ) (w : Walk)
        → work w ≤ fuel
        → (t : Walk) × (descend fuel by_id child_edges_of w ≡ some t)
    unfolding descend
    descend_ends zero w h = (w, ground arith)
    descend_ends (suc fuel) w h = elim (List-cases w.queue) [
      | inl empty ↦ (w, simp (empty, descend))
      | inr (id, rest, e) ↦
          let less =
            descend_edges-work (or_empty (lookup id child_edges_of)) (record w { queue = rest })
              (within id) in
          let (t, ends) =
            descend_ends fuel
              (descend_edges by_id (or_empty (lookup id child_edges_of))
                (record w { queue = rest }))
              (omega (arith, ap length e)) in
          (t, ground arith)
    ]

    -- The loop ends within one round for each root and each edge.
    descendants_of_returns :
        (roots : List KNode)
        → (ns : List KNode) × (descendants_of by_id child_edges_of edges roots ≡ some ns)
    unfolding descendants_of
    descendants_of_returns roots =
        let (t, e) =
          descend_ends (length roots + length edges)
            (record { seen = root_set roots []; out = []; queue = map (λ n. n.id) roots })
            (omega (
              arith,
              unseen-le (root_set roots []) edges,
              length-map (λ (n : KNode). n.id) roots,
            )) in
        (t.out, rw (e, descendants_of) refl)

-- The values of `childEdgesOf` are edges of the graph.
module _ (by_id : List (Text × KNode)) (edges : List KEdge) where
  abbrev AllWithin : List (Text × List KEdge) → Type 0
  AllWithin m =
      (id : Text) → All (λ e. contains (targets edges) e.to ≡ true) (or_empty (lookup id m))

  push_at-AllWithin :
      (e : KEdge) (m : List (Text × List KEdge))
      → contains (targets edges) e.to ≡ true
      → AllWithin m
      → AllWithin (push_at e.from e m)
  push_at-AllWithin e m h all id = elim (Bool-cases (e.from == id)) [
    | inl same ↦
        rw (lookup-insert e.from id (or_empty (lookup e.from m) ++ e ∷ []) m, same)
          (All-append _ (or_empty (lookup e.from m)) (e ∷ []) (all e.from) (h, tt))
    | inr other ↦
        rw (lookup-insert e.from id (or_empty (lookup e.from m) ++ e ∷ []) m, other) (all id)
  ]

  child_edges_from-AllWithin :
      (es : List KEdge) (m : List (Text × List KEdge))
      → All (λ e. contains (targets edges) e.to ≡ true) es
      → AllWithin m
      → AllWithin (child_edges_from by_id es m)
  unfolding child_edges_from
  child_edges_from-AllWithin [] m h all = all
  child_edges_from-AllWithin (e ∷ es) m h all =
      elim (Bool-cases (is_known e.from by_id && is_known e.to by_id)) [
        | inl known ↦
            rw known (
              child_edges_from-AllWithin es (push_at e.from e m) h.1
                (push_at-AllWithin e m h.0 all))
        | inr unknown ↦ rw unknown (child_edges_from-AllWithin es m h.1 all)
      ]

contains-targets : (es : List KEdge) → All (λ e. contains (targets es) e.to ≡ true) es
unfolding contains
contains-targets [] = tt
contains-targets (e ∷ es) =
    (ground (arith, ==_refl e.to), All-mono es (λ d h. ground arith) (contains-targets es))

-- For the edges of the graph, the descent from any nodes ends.
pub descendants-returns :
    (by_id : List (Text × KNode)) (edges : List KEdge) (roots : List KNode)
    → (ns : List KNode) × (descendants_of by_id (child_edges_from by_id edges []) edges roots
        ≡ some ns)
unfolding lookup
descendants-returns by_id edges roots =
    descendants_of_returns by_id edges (child_edges_from by_id edges [])
      (child_edges_from-AllWithin by_id edges edges [] (contains-targets edges) (λ id. tt)) roots
