-- ===== src/Rollup/Steps.antt =====
-- One round of the walk of `descendantPods` (web/src/loggable.ts), and what it keeps.
use kd.Common.{
  ◌≡◌, refl, sym, ap, subst, Bool, true, false, ◌&&◌, ◌||◌, List, [], ◌∷◌, ◌++◌, Text, text_eq,
  ◌==◌, contains, contains-add, arith, Bool-cases, inl, inr, ◌⊎◌, ⊎_elim, All, All-append, All-zip,
  text_beq_iff, ==_iff, ==_refl, Occurs, Occurs-All,
}
use kd.Types.{KNode}
use kd.Rollup.{Walk, visit, visit_all}
use kd.Rollup.Rounds.{kids, ids, kids-All}
use kd.Rollup.Below.{
  Below, is_pod, owned_by, has_inner, IsTyped, any-Occurs, kids-owned, child, under,
}

module _ (nodes : List KNode) (root : Text) (typed : IsTyped nodes) where
  -- What the walk may expand.
  abbrev pub expands : Walk → Text → Bool
  expands w u = root == u || contains w.seen u && has_inner nodes u

  abbrev pub Settled : Walk → KNode → Type 0
  Settled w n =
      (u : Text)
      → owned_by u n ≡ true
      → expands w u ≡ true
      → (contains w.stack u ≡ true) ⊎ (contains w.seen n.id ≡ true)

  abbrev pub Collected : Walk → KNode → Type 0
  Collected w n = is_pod n ≡ true → contains w.seen n.id ≡ true → contains (ids w.pods) n.id ≡ true

  -- A node from which the walk goes on.
  unfoldable pub Inner : Text → Type 0
  Inner u = (root ≡ u) ⊎ ((m : KNode) × Below nodes root m × (is_pod m ≡ false) × (m.id ≡ u))

  pub record Inv (w : Walk) : Type 0 where
    pub found : All (λ n. (is_pod n ≡ true) × Below nodes root n) w.pods
    pub inner : All Inner w.stack
    pub settled : All (Settled w) nodes
    pub collected : All (Collected w) nodes

  -- What a round keeps.
  pub record Grows (w t : Walk) : Type 0 where
    pub seen : (k : Text) → contains w.seen k ≡ true → contains t.seen k ≡ true
    pub stack : (k : Text) → contains w.stack k ≡ true → contains t.stack k ≡ true
    pub fresh :
        (k : Text)
        → contains t.seen k ≡ true
        → has_inner nodes k ≡ true
        → (contains w.seen k ≡ true) ⊎ (contains t.stack k ≡ true)

  pub visit-Grows :
      (n : KNode) (w : Walk)
      → (is_pod n ≡ true → has_inner nodes n.id ≡ false)
      → Grows w (visit n w)
  unfolding visit contains
  visit-Grows n w typed_n = record {
    seen = λ k h. ground (arith, contains-add w.seen n.id k);
    stack = λ k h. ground (arith, contains-add w.seen n.id k);
    fresh = λ k h inner. ground (arith, contains-add w.seen n.id k, text_beq_iff n.id k, typed_n);
  }

  pub Grows-trans : {a b c : Walk} → Grows a b → Grows b c → Grows a c
  Grows-trans g h = record {
    seen = λ k p. h.seen k (g.seen k p);
    stack = λ k p. h.stack k (g.stack k p);
    fresh = λ k p i.
        ⊎_elim (λ q. ⊎_elim inl (λ r. inr (h.stack k r)) (g.fresh k q i)) inr (h.fresh k p i);
  }

  abbrev pub IsTypedNode : KNode → Type 0
  IsTypedNode n = is_pod n ≡ true → has_inner nodes n.id ≡ false

  pub visit_all-Grows : (ns : List KNode) (w : Walk) → All IsTypedNode ns → Grows w (visit_all ns w)
  unfolding visit_all
  visit_all-Grows [] w h = record { seen = λ k p. p; stack = λ k p. p; fresh = λ k p i. inl p }
  visit_all-Grows (n ∷ ns) w h =
      Grows-trans (visit-Grows n w h.0) (visit_all-Grows ns (visit n w) h.1)

  pub visit-sees : (n : KNode) (w : Walk) → contains (visit n w).seen n.id ≡ true
  unfolding visit
  visit-sees n w = ground (arith, contains-add w.seen n.id n.id, ==_refl n.id)

  pub visit_all-sees :
      (ns : List KNode) (w : Walk)
      → All IsTypedNode ns
      → All (λ n. contains (visit_all ns w).seen n.id ≡ true) ns
  unfolding visit_all
  visit_all-sees [] w h = tt
  visit_all-sees (n ∷ ns) w h = (
    (visit_all-Grows ns (visit n w) h.1).seen n.id (visit-sees n w),
    visit_all-sees ns (visit n w) h.1,
  )

  abbrev pub Fits : KNode → Type 0
  Fits n = Below nodes root n × Occurs n nodes

  abbrev pub Found : Walk → Type 0
  Found w = All (λ n. (is_pod n ≡ true) × Below nodes root n) w.pods

  pub visit-Found : (n : KNode) (w : Walk) → Fits n → Found w → Found (visit n w)
  unfolding visit
  visit-Found n w fits h = elim (Bool-cases (contains w.seen n.id)) [
    | inl old ↦ rw old h
    | inr new ↦ elim (Bool-cases (is_pod n)) [
      | inl pod ↦ rw (new, pod) (All-append _ w.pods _ h ((pod, fits.0), tt))
      | inr other ↦ rw (new, other) h
    ]
  ]

  pub visit-Inner :
      (n : KNode) (w : Walk) → Fits n → All Inner w.stack → All Inner (visit n w).stack
  unfolding visit Inner
  visit-Inner n w fits h = elim (Bool-cases (contains w.seen n.id)) [
    | inl old ↦ rw old h
    | inr new ↦ elim (Bool-cases (is_pod n)) [
      | inl pod ↦ rw (new, pod) h
      | inr other ↦ rw (new, other) (inr (n, fits.0, other, refl), h)
    ]
  ]

  pub inner-of : (n : KNode) → Occurs n nodes → is_pod n ≡ false → has_inner nodes n.id ≡ true
  inner-of n o other = any-Occurs _ nodes o.0 n o.1 (ground (arith, ==_refl n.id))

  pub contains-ids-snoc :
      (ps : List KNode) (n : KNode) (k : Text)
      → contains (ids (ps ++ n ∷ [])) k ≡ (contains (ids ps) k || n.id == k)
  unfolding contains
  contains-ids-snoc [] n k = ground arith
  contains-ids-snoc (p ∷ ps) n k = ground (arith, contains-ids-snoc ps n k)

  pub visit-Collected :
      (n : KNode) (w : Walk)
      → Fits n
      → (f : KNode) → IsTypedNode f
      → Collected w f
      → Collected (visit n w) f
  unfolding visit
  visit-Collected n w fits f typed_f old pod seen = elim (Bool-cases (is_pod n)) [
    | inl pod_n ↦
        ground (arith, old, contains-add w.seen n.id f.id, contains-ids-snoc w.pods n f.id)
    | inr other ↦ ground (
      arith,
      old,
      contains-add w.seen n.id f.id,
      inner-of n fits.1 other,
      typed_f pod,
      ap (has_inner nodes),
      text_beq_iff n.id f.id,
    )
  ]

  pub visit_all-keeps :
      (ns : List KNode) (w : Walk)
      → All Fits ns
      → Found w
      → All Inner w.stack
      → All (Collected w) nodes
      → Found (visit_all ns w)
        × All Inner (visit_all ns w).stack
        × All (Collected (visit_all ns w)) nodes
  unfolding visit_all
  visit_all-keeps [] w fits f i c = (f, i, c)
  visit_all-keeps (n ∷ ns) w fits f i c =
      visit_all-keeps ns (visit n w) fits.1 (visit-Found n w fits.0 f) (visit-Inner n w fits.0 i)
        (All-zip nodes (λ m t old. visit-Collected n w fits.0 m t old) typed c)

  -- The nodes of a node from which the walk goes on are below the root.
  pub kid-Fits : (u : Text) (n : KNode) → Inner u → Occurs n nodes → owned_by u n ≡ true → Fits n
  unfolding Inner
  kid-Fits u n (inl same) o owned = (child o (subst (λ x. owned_by x n ≡ true) (sym same) owned), o)
  kid-Fits u n (inr (m, below, other, same)) o owned =
      (under below other o (subst (λ x. owned_by x n ≡ true) (sym same) owned), o)

  pub kids-Fit : (u : Text) → Inner u → All Fits (kids u nodes)
  kids-Fit u inner =
      All-zip (kids u nodes) (λ n o owned. kid-Fits u n inner o owned)
        (kids-All (λ n. Occurs n nodes) u nodes (Occurs-All nodes)) (kids-owned u nodes)

  pub waiting :
      (w : Walk) (cur : Text) (rest : List Text) (v : Text)
      → w.stack ≡ cur ∷ rest
      → contains w.stack v ≡ (cur == v || contains rest v)
  unfolding contains
  waiting w cur rest v q = ap (λ l. contains l v) q

  pub round-Settled :
      (w : Walk) (cur : Text) (rest : List Text) (n : KNode)
      → w.stack ≡ cur ∷ rest
      → Settled w n
      → (owned_by cur n ≡ true
          → contains (visit_all (kids cur nodes) (record w { stack = rest })).seen n.id ≡ true)
      → Grows (record w { stack = rest }) (visit_all (kids cur nodes) (record w { stack = rest }))
      → Settled (visit_all (kids cur nodes) (record w { stack = rest })) n
  round-Settled w cur rest n q old covers grows u owned goes = elim (Bool-cases (cur == u)) [
    | inl same ↦ inr (covers (subst (λ x. owned_by x n ≡ true) (sym ((==_iff cur u).0 same)) owned))
    | inr other ↦ elim before [
      | inr waits ↦ inl waits
      | inl was ↦ elim (old u owned was) [
        | inr seen ↦ inr (grows.seen n.id seen)
        | inl queued ↦ inl (grows.stack u (ground (arith, waiting w cur rest u q)))
      ]
    ]
  ]
    where
      t : Walk
      t = visit_all (kids cur nodes) (record w { stack = rest })

      before : (expands w u ≡ true) ⊎ (contains t.stack u ≡ true)
      before = elim (Bool-cases (root == u)) [
        | inl start ↦ inl (ground arith)
        | inr far ↦
            ⊎_elim (λ s. inl (ground arith)) inr (grows.fresh u (ground arith) (ground arith))
      ]
