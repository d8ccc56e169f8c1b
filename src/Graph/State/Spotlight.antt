-- ===== src/Graph/State/Spotlight.antt =====
-- The search of `spotlightSubtree` (web/src/graphState.ts): walks over undirected edges, and its end.
use kd.Common.{
  ℕ, zero, suc, ◌+◌, ◌≤◌, ◌≡◌, ap, Bool, true, false, ◌||◌, ◌&&◌, some, List, [], ◌∷◌, map, Text,
  text_eq, ◌==◌, if◌then◌else◌, contains, add, length, length-append, contains-add, text_beq_iff,
  List-cases, inl, inr, ◌⊎◌, arith, All,
}
use kd.Types.{KEdge}
use kd.Graph.State.{Walk, edge_key, other_end, visit, scan, walk, start, spotlight_subtree}

-- Some edge of the list joins the two nodes, in either direction.
abbrev pub joins : KEdge → Text → Text → Bool
joins e u v = e.from == u && e.to == v || e.to == u && e.from == v

abbrev pub Linked : List KEdge → Text → Text → Type 0
Linked [] u v = ⊥
Linked (e ∷ es) u v = (joins e u v ≡ true) ⊎ Linked es u v

-- The undirected walks from `id`.
pub data Reach (edges : List KEdge) (id : Text) : Text → Type 0 where
  here : Reach edges id id
  step : {u v : Text} → Reach edges id u → Linked edges u v → Reach edges id v

-- The edges whose key is not yet in the set.
abbrev unseen : List Text → List KEdge → ℕ
unseen seen [] = 0
unseen seen (e ∷ es) = if contains seen (edge_key e) then unseen seen es else suc (unseen seen es)

unseen-add-le :
    (seen : List Text) (k : Text) (es : List KEdge) → unseen (add seen k) es ≤ unseen seen es
unseen-add-le seen k [] = omega arith
unseen-add-le seen k (e ∷ es) =
    ground (arith, unseen-add-le seen k es, contains-add seen k (edge_key e))

-- the edge itself is among the list
unseen-add-lt :
    (seen : List Text) (es : List KEdge) (k : Text)
    → contains seen k ≡ false
    → contains (map edge_key es) k ≡ true
    → suc (unseen (add seen k) es) ≤ unseen seen es
unfolding contains
unseen-add-lt seen [] k h m = cc
unseen-add-lt seen (e ∷ es) k h m = ground (
  arith,
  unseen-add-lt seen es k h,
  unseen-add-le seen k es,
  contains-add seen k (edge_key e),
  text_beq_iff (edge_key e) k,
)

abbrev work : List KEdge → Walk → ℕ
work edges w = unseen w.seen edges + length w.queue

visit-work :
    (edges : List KEdge) (cur : Text) (e : KEdge) (w : Walk)
    → contains (map edge_key edges) (edge_key e) ≡ true
    → work edges (visit cur e w) ≤ work edges w
unfolding visit
visit-work edges cur e w m =
    ground
      (arith, unseen-add-lt w.seen edges (edge_key e), length-append w.queue (other_end cur e ∷ []))

abbrev AllIn : List KEdge → List KEdge → Type 0
AllIn edges es = All (λ e. contains (map edge_key edges) (edge_key e) ≡ true) es

scan-work :
    (edges : List KEdge) (cur : Text) (es : List KEdge) (w : Walk)
    → AllIn edges es
    → work edges (scan cur es w) ≤ work edges w
unfolding scan
scan-work edges cur [] w h = omega arith
scan-work edges cur (e ∷ es) w h =
    omega (arith, scan-work edges cur es (visit cur e w) h.1, visit-work edges cur e w h.0)

AllIn-cons :
    (edges : List KEdge) (f : KEdge) (es : List KEdge) → AllIn edges es → AllIn (f ∷ edges) es
unfolding contains
AllIn-cons edges f [] h = tt
AllIn-cons edges f (e ∷ es) h = (ground arith, AllIn-cons edges f es h.1)

AllIn-self : (edges : List KEdge) → AllIn edges edges
unfolding contains
AllIn-self [] = tt
AllIn-self (e ∷ es) =
    (ground (arith, text_beq_iff (edge_key e) (edge_key e)), AllIn-cons es e es (AllIn-self es))

walk_ends :
    (fuel : ℕ) (edges : List KEdge) (w : Walk)
    → work edges w ≤ fuel
    → (t : Walk) × (walk fuel edges w ≡ some t)
unfolding walk
walk_ends zero edges w h = (w, ground arith)
walk_ends (suc fuel) edges w h = elim (List-cases w.queue) [
  | inl empty ↦ (w, simp (empty, walk))
  | inr (cur, rest, e) ↦
      let less = scan-work edges cur edges (record w { queue = rest }) (AllIn-self edges) in
      let (t, ends) =
        walk_ends fuel edges (scan cur edges (record w { queue = rest }))
          (omega (arith, ap length e)) in
      (t, ground arith)
]

unseen-le : (seen : List Text) (es : List KEdge) → unseen seen es ≤ length es
unseen-le seen [] = omega arith
unseen-le seen (e ∷ es) = ground (arith, unseen-le seen es)

-- The `while` loop of `spotlightSubtree` ends, within one round for each edge and one more.
pub spotlight_subtree_returns :
    (id : Text) (edges : List KEdge) → (t : Walk) × (spotlight_subtree id edges ≡ some t)
unfolding spotlight_subtree
spotlight_subtree_returns id edges =
    walk_ends (suc (length edges)) edges (start id) (omega (arith, unseen-le [] edges))
