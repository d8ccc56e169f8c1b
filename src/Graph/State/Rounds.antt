-- ===== src/Graph/State/Rounds.antt =====
-- One round of `spotlightSubtree` (web/src/graphState.ts): what it adds to the sets.
use kd.Common.{
  ◌≡◌, Bool, true, ◌||◌, List, [], ◌∷◌, Text, text_eq, ◌==◌, contains, contains-append,
  contains-add, text_beq_iff, Bool-cases, inl, inr, ◌⊎◌, ⊎_elim, arith, All, All-mono, All-zip,
}
use kd.Types.{KEdge}
use kd.Graph.State.{Walk, edge_key, other_end, visit, scan}
use kd.Graph.State.Keys.{IsPlain, edge_key-injective}
use kd.Graph.State.Spotlight.{joins, Linked, Reach, step}

abbrev pub touches : Text → KEdge → Bool
touches u e = e.from == u || e.to == u

-- What one round adds to the sets, whatever the edge.
pub record Grows (w t : Walk) : Type 0 where
  pub nodes : (v : Text) → contains w.nodes v ≡ true → contains t.nodes v ≡ true
  pub seen : (k : Text) → contains w.seen k ≡ true → contains t.seen k ≡ true
  pub queue : (v : Text) → contains w.queue v ≡ true → contains t.queue v ≡ true
  pub fresh :
      (v : Text)
      → contains t.nodes v ≡ true
      → (contains w.nodes v ≡ true) ⊎ (contains t.queue v ≡ true)
  pub queued :
      (v : Text)
      → contains t.queue v ≡ true
      → (contains w.queue v ≡ true) ⊎ (contains t.nodes v ≡ true)

pub visit-Grows : (cur : Text) (e : KEdge) (w : Walk) → Grows w (visit cur e w)
unfolding visit contains
visit-Grows cur e w = record {
  nodes = λ v h. ground (arith, contains-add w.nodes (other_end cur e) v);
  seen = λ k h. ground (arith, contains-add w.seen (edge_key e) k);
  queue = λ v h. ground (arith, contains-append w.queue (other_end cur e ∷ []) v);
  fresh = λ v h. ground (
    arith,
    contains-add w.nodes (other_end cur e) v,
    contains-append w.queue (other_end cur e ∷ []) v,
  );
  queued = λ v h. ground (
    arith,
    contains-add w.nodes (other_end cur e) v,
    contains-append w.queue (other_end cur e ∷ []) v,
  );
}

Grows-trans : {a b c : Walk} → Grows a b → Grows b c → Grows a c
Grows-trans g h = record {
  nodes = λ v p. h.nodes v (g.nodes v p);
  seen = λ k p. h.seen k (g.seen k p);
  queue = λ v p. h.queue v (g.queue v p);
  fresh = λ v p. ⊎_elim (λ q. ⊎_elim inl (λ r. inr (h.queue v r)) (g.fresh v q)) inr (h.fresh v p);
  queued =
      λ v p. ⊎_elim (λ q. ⊎_elim inl (λ r. inr (h.nodes v r)) (g.queued v q)) inr (h.queued v p);
}

pub scan-Grows : (cur : Text) (es : List KEdge) (w : Walk) → Grows w (scan cur es w)
unfolding scan
scan-Grows cur [] w = record {
  nodes = λ v p. p;
  seen = λ k p. p;
  queue = λ v p. p;
  fresh = λ v p. inl p;
  queued = λ v p. inl p;
}
scan-Grows cur (e ∷ es) w = Grows-trans (visit-Grows cur e w) (scan-Grows cur es (visit cur e w))

visit-marks :
    (cur : Text) (e : KEdge) (w : Walk)
    → touches cur e ≡ true
    → contains (visit cur e w).seen (edge_key e) ≡ true
unfolding visit
visit-marks cur e w t =
    ground
      (arith, contains-add w.seen (edge_key e) (edge_key e), text_beq_iff (edge_key e) (edge_key e))

-- The current node's edges are seen when it has been scanned.
pub scan-covers :
    (cur : Text) (es : List KEdge) (w : Walk)
    → All (λ e. touches cur e ≡ true → contains (scan cur es w).seen (edge_key e) ≡ true) es
unfolding scan
scan-covers cur [] w = tt
scan-covers cur (e ∷ es) w = (
  λ t. (scan-Grows cur es (visit cur e w)).seen (edge_key e) (visit-marks cur e w t),
  scan-covers cur es (visit cur e w),
)

-- The ends of the seen edges are lit.
abbrev pub EndsLit : Walk → KEdge → Type 0
EndsLit w e =
    contains w.seen (edge_key e) ≡ true
    → (contains w.nodes e.from ≡ true) × (contains w.nodes e.to ≡ true)

visit-EndsLit :
    (cur : Text) (e : KEdge) (w : Walk)
    → IsPlain e
    → contains w.nodes cur ≡ true
    → (f : KEdge) → IsPlain f
    → EndsLit w f
    → EndsLit (visit cur e w) f
unfolding visit
visit-EndsLit cur e w plain lit f plain_f old h = ground (
  arith,
  old,
  edge_key-injective e f plain plain_f,
  text_beq_iff (edge_key e) (edge_key f),
  contains-add w.seen (edge_key e) (edge_key f),
  contains-add w.nodes (other_end cur e) f.from,
  contains-add w.nodes (other_end cur e) f.to,
  text_beq_iff e.from cur,
  text_beq_iff e.to cur,
  text_beq_iff (other_end cur e) f.from,
  text_beq_iff (other_end cur e) f.to,
)

module _ (id : Text) (edges : List KEdge) where
  abbrev pub Lights : Walk → Type 0
  Lights w = (v : Text) → contains w.nodes v ≡ true → Reach edges id v

  pub visit-Lights :
      (cur : Text) (e : KEdge) (w : Walk)
      → ((u v : Text) → joins e u v ≡ true → Linked edges u v)
      → contains w.nodes cur ≡ true
      → Lights w
      → Lights (visit cur e w)
  unfolding visit
  visit-Lights cur e w link lit h v new = elim (Bool-cases (touches cur e)) [
    | inl t ↦ elim (Bool-cases (other_end cur e == v)) [
      | inl hit ↦ step (h cur lit) (link cur v (ground (arith, text_beq_iff e.from cur)))
      | inr miss ↦ h v (ground (arith, contains-add w.nodes (other_end cur e) v))
    ]
    | inr f ↦ h v (ground arith)
  ]

pub scan-EndsLit :
    (cur : Text) (es edges : List KEdge) (w : Walk)
    → All IsPlain es
    → All IsPlain edges
    → contains w.nodes cur ≡ true
    → All (EndsLit w) edges
    → All (EndsLit (scan cur es w)) edges
unfolding scan
scan-EndsLit cur [] edges w p q lit h = h
scan-EndsLit cur (e ∷ es) edges w p q lit h =
    scan-EndsLit cur es edges (visit cur e w) p.1 q ((visit-Grows cur e w).nodes cur lit)
      (All-zip edges (λ f pf old. visit-EndsLit cur e w p.0 lit f pf old) q h)

pub Linked-self :
    (edges : List KEdge) → All (λ e. (u v : Text) → joins e u v ≡ true → Linked edges u v) edges
Linked-self [] = tt
Linked-self (e ∷ es) = (λ u v j. inl j, All-mono es (λ f h u v j. inr (h u v j)) (Linked-self es))
