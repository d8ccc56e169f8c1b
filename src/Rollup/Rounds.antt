-- ===== src/Rollup/Rounds.antt =====
-- One round of `descendantPods` (web/src/loggable.ts), and the end of its loop.
use kd.Common.{
  ℕ, zero, suc, ◌+◌, ◌≤◌, ◌≡◌, refl, sym, ap, ◌∙◌, true, false, some, List, [], ◌∷◌, ◌++◌,
  append-nil, append_assoc, map, Text, text_eq, ◌==◌, if◌then◌else◌, lookup, lookup-insert,
  contains, contains-add, add, length, arith, Bool-cases, List-cases, inl, inr, All, All-mono,
  All-append, text_beq_iff, ==_iff, ==_refl,
}
use kd.Types.{KNode, or_empty}
use kd.Layout.Blocks.{push_at}
use kd.Rollup.{Walk, add_owners, children_from, children_by_owner, visit, visit_all, walk, begun}

-- The nodes that an owner has, in order, as often as they name it.
abbrev pub copies : Text → KNode → List Text → List KNode
copies u n [] = []
copies u n (o ∷ os) = if o == u then n ∷ copies u n os else copies u n os

abbrev pub kids : Text → List KNode → List KNode
kids u [] = []
kids u (n ∷ ns) = copies u n (or_empty n.owner_uids) ++ kids u ns

add_owners-kids :
    (n : KNode) (os : List Text) (m : List (Text × List KNode)) (u : Text)
    → or_empty (lookup u (add_owners n os m)) ≡ or_empty (lookup u m) ++ copies u n os
unfolding add_owners
add_owners-kids n [] m u = sym (append-nil _)
add_owners-kids n (o ∷ os) m u = elim (Bool-cases (o == u)) [
  | inl same ↦
      add_owners-kids n os (push_at o n m) u
      ∙ ap (λ x. or_empty x ++ copies u n os)
          (lookup-insert o u (or_empty (lookup o m) ++ n ∷ []) m)
      ∙ rw (same, (==_iff o u).0 same)
          (append_assoc (or_empty (lookup u m)) (n ∷ []) (copies u n os))
  | inr other ↦
      add_owners-kids n os (push_at o n m) u
      ∙ ap (λ x. or_empty x ++ copies u n os)
          (lookup-insert o u (or_empty (lookup o m) ++ n ∷ []) m)
      ∙ rw other refl
]

children_from-kids :
    (ns : List KNode) (m : List (Text × List KNode)) (u : Text)
    → or_empty (lookup u (children_from ns m)) ≡ or_empty (lookup u m) ++ kids u ns
unfolding children_from
children_from-kids [] m u = sym (append-nil _)
children_from-kids (n ∷ ns) m u =
    children_from-kids ns (add_owners n (or_empty n.owner_uids) m) u
    ∙ ap (λ l. l ++ kids u ns) (add_owners-kids n (or_empty n.owner_uids) m u)
    ∙ append_assoc (or_empty (lookup u m)) (copies u n (or_empty n.owner_uids)) (kids u ns)

pub children_by_owner-kids :
    (nodes : List KNode) (u : Text) → or_empty (lookup u (children_by_owner nodes)) ≡ kids u nodes
unfolding children_by_owner lookup
children_by_owner-kids nodes u = children_from-kids nodes [] u

abbrev pub ids : List KNode → List Text
ids ns = map (λ n. n.id) ns

-- The nodes that have not been seen.
abbrev unseen : List Text → List KNode → ℕ
unseen seen [] = 0
unseen seen (n ∷ ns) = if contains seen n.id then unseen seen ns else suc (unseen seen ns)

unseen-add-le :
    (seen : List Text) (k : Text) (ns : List KNode) → unseen (add seen k) ns ≤ unseen seen ns
unseen-add-le seen k [] = omega arith
unseen-add-le seen k (n ∷ ns) = ground (arith, unseen-add-le seen k ns, contains-add seen k n.id)

unseen-add-lt :
    (seen : List Text) (ns : List KNode) (k : Text)
    → contains seen k ≡ false
    → contains (ids ns) k ≡ true
    → suc (unseen (add seen k) ns) ≤ unseen seen ns
unfolding contains
unseen-add-lt seen [] k h m = cc
unseen-add-lt seen (n ∷ ns) k h m = ground (
  arith,
  unseen-add-lt seen ns k h,
  unseen-add-le seen k ns,
  contains-add seen k n.id,
  text_beq_iff n.id k,
)

unseen-le : (seen : List Text) (ns : List KNode) → unseen seen ns ≤ length ns
unseen-le seen [] = omega arith
unseen-le seen (n ∷ ns) = ground (arith, unseen-le seen ns)

abbrev pub Within : List KNode → List KNode → Type 0
Within nodes ns = All (λ n. contains (ids nodes) n.id ≡ true) ns

copies-All {ℓ} :
    (P : KNode → Type ℓ) (u : Text) (n : KNode) (os : List Text) → P n → All P (copies u n os)
copies-All P u n [] h = tt
copies-All P u n (o ∷ os) h = elim (Bool-cases (o == u)) [
  | inl same ↦ rw same (h, copies-All P u n os h)
  | inr other ↦ rw other (copies-All P u n os h)
]

pub kids-All {ℓ} : (P : KNode → Type ℓ) (u : Text) (ns : List KNode) → All P ns → All P (kids u ns)
kids-All P u [] h = tt
kids-All P u (n ∷ ns) h =
    All-append P (copies u n (or_empty n.owner_uids)) _ (copies-All P u n _ h.0)
      (kids-All P u ns h.1)

Within-self : (nodes : List KNode) → Within nodes nodes
unfolding contains
Within-self [] = tt
Within-self (n ∷ ns) =
    (ground (arith, ==_refl n.id), All-mono ns (λ m h. ground arith) (Within-self ns))

module _ (nodes : List KNode) where
  abbrev work : Walk → ℕ
  work w = unseen w.seen nodes + length w.stack

  visit-work : (n : KNode) (w : Walk) → contains (ids nodes) n.id ≡ true → work (visit n w) ≤ work w
  unfolding visit
  visit-work n w h =
      ground (arith, unseen-add-lt w.seen nodes n.id, unseen-add-le w.seen n.id nodes)

  visit_all-work : (ns : List KNode) (w : Walk) → Within nodes ns → work (visit_all ns w) ≤ work w
  unfolding visit_all
  visit_all-work [] w h = omega arith
  visit_all-work (n ∷ ns) w h = omega (arith, visit_all-work ns (visit n w) h.1, visit-work n w h.0)

  walk_ends :
      (fuel : ℕ) (w : Walk)
      → work w ≤ fuel
      → (t : Walk) × (walk fuel (children_by_owner nodes) w ≡ some t)
  unfolding walk
  walk_ends zero w h = (w, ground arith)
  walk_ends (suc fuel) w h = elim (List-cases w.stack) [
    | inl empty ↦ (w, simp (empty, walk))
    | inr (id, rest, e) ↦
        let below = or_empty (lookup id (children_by_owner nodes)) in
        let popped : Walk = record w { stack = rest } in
        let inside : Within nodes below =
          rw (children_by_owner-kids nodes id) (kids-All _ id nodes (Within-self nodes)) in
        let less = visit_all-work below popped inside in
        let (t, ends) = walk_ends fuel (visit_all below popped) (omega (arith, ap length e)) in
        (t, ground arith)
  ]

  -- The loop ends within one round for each node and one for the root.
  pub walk_returns :
      (root_id : Text)
      → (t : Walk) × (walk (suc (length nodes)) (children_by_owner nodes) (begun root_id) ≡ some t)
  walk_returns root_id =
      walk_ends (suc (length nodes)) (begun root_id) (omega (arith, unseen-le [] nodes))
