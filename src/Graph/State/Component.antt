-- ===== src/Graph/State/Component.antt =====
-- `spotlightSubtree` of web/src/graphState.ts finds the connected component.
use kd.Common.{
  ℕ, zero, suc, ◌≡◌, sym, ap, subst, ==_iff, ◌↔◌, true, false, ◌||◌, some, List, [], ◌∷◌, Text,
  text_eq, ◌==◌, contains, length, text_beq_iff, Bool-cases, List-cases, inl, inr, ◌⊎◌, ⊎_elim,
  arith, All, All-mono, All-zip,
}
use mathlib.Core.Bool.{So-prop}
use mathlib.Core.Logic.{∥∥₁_elim}
use kd.Types.{KEdge}
use kd.Graph.State.{Walk, edge_key, visit, scan, walk, start, spotlight_subtree}
use kd.Graph.State.Keys.{IsPlain}
use kd.Graph.State.Spotlight.{joins, Linked, Reach, here, step, spotlight_subtree_returns}
use kd.Graph.State.Rounds.{
  touches, Grows, visit-Grows, scan-Grows, scan-covers, EndsLit, scan-EndsLit, Linked-self, Lights,
  visit-Lights,
}

module _ (id : Text) (edges : List KEdge) (plain : All IsPlain edges) where
  scan-Lights :
      (cur : Text) (es : List KEdge) (w : Walk)
      → All (λ e. (u v : Text) → joins e u v ≡ true → Linked edges u v) es
      → contains w.nodes cur ≡ true
      → Lights id edges w
      → Lights id edges (scan cur es w)
  unfolding scan
  scan-Lights cur [] w links lit h = h
  scan-Lights cur (e ∷ es) w links lit h =
      scan-Lights cur es (visit cur e w) links.1 ((visit-Grows cur e w).nodes cur lit)
        (visit-Lights id edges cur e w links.0 lit h)

  -- An edge at a lit node is seen, or the node waits.
  abbrev Settled : Walk → KEdge → Type 0
  Settled w e =
      (u : Text)
      → touches u e ≡ true
      → contains w.nodes u ≡ true
      → (contains w.queue u ≡ true) ⊎ (contains w.seen (edge_key e) ≡ true)

  waiting :
      (w : Walk) (cur : Text) (rest : List Text) (v : Text)
      → w.queue ≡ cur ∷ rest
      → contains w.queue v ≡ (cur == v || contains rest v)
  unfolding contains
  waiting w cur rest v q = ap (λ l. contains l v) q

  record Inv (w : Walk) : Type 0 where
    source : contains w.nodes id ≡ true
    queued : (v : Text) → contains w.queue v ≡ true → contains w.nodes v ≡ true
    lights : Lights id edges w
    ends : All (EndsLit w) edges
    settled : All (Settled w) edges

  Inv-start : Inv (start id)
  unfolding contains
  Inv-start = record {
    source = ground (arith, text_beq_iff id id);
    queued = λ v h. h;
    lights = λ v h. subst (Reach edges id) (ground (arith, text_beq_iff id v)) here;
    ends = All-mono edges (λ e p h. cc) plain;
    settled = All-mono edges (λ e p u t h. inl h) plain;
  }

  round-Settled :
      (w : Walk) (cur : Text) (rest : List Text) (e : KEdge)
      → w.queue ≡ cur ∷ rest
      → Settled w e
      → (touches cur e ≡ true
          → contains (scan cur edges (record w { queue = rest })).seen (edge_key e) ≡ true)
      → Settled (scan cur edges (record w { queue = rest })) e
  round-Settled w cur rest e q old covers u t lit = elim (grows.fresh u lit) [
    | inr waits ↦ inl waits
    | inl was ↦ elim (old u t was) [
      | inr seen ↦ inr (grows.seen (edge_key e) seen)
      | inl queued ↦ elim (Bool-cases (cur == u)) [
        | inl same ↦ inr (covers (subst (λ x. touches x e ≡ true) (sym ((==_iff cur u).0 same)) t))
        | inr other ↦ inl (grows.queue u (waits queued other))
      ]
    ]
  ]
    where
      grows : Grows (record w { queue = rest }) (scan cur edges (record w { queue = rest }))
      grows = scan-Grows cur edges (record w { queue = rest })

      waits : contains w.queue u ≡ true → cur == u ≡ false → contains rest u ≡ true
      waits h k = ground (arith, waiting w cur rest u q)

  Inv-round :
      (w : Walk) (cur : Text) (rest : List Text)
      → w.queue ≡ cur ∷ rest
      → Inv w
      → Inv (scan cur edges (record w { queue = rest }))
  Inv-round w cur rest q inv = record {
    source = grows.nodes id inv.source;
    queued = λ v h.
        ⊎_elim (λ r. grows.nodes v (inv.queued v (ground (arith, waiting w cur rest v q)))) (λ n. n)
          (grows.queued v h);
    lights = scan-Lights cur edges _ (Linked-self edges) lit inv.lights;
    ends = scan-EndsLit cur edges edges _ plain plain lit inv.ends;
    settled =
        All-zip edges (λ e old covers. round-Settled w cur rest e q old covers) inv.settled
          (scan-covers cur edges _);
  }
    where
      lit : contains w.nodes cur ≡ true
      lit = inv.queued cur (ground (arith, waiting w cur rest cur q, text_beq_iff cur cur))

      grows : Grows (record w { queue = rest }) (scan cur edges (record w { queue = rest }))
      grows = scan-Grows cur edges (record w { queue = rest })

  walk-Inv : (fuel : ℕ) (w t : Walk) → Inv w → walk fuel edges w ≡ some t → Inv t × (t.queue ≡ [])
  unfolding walk
  walk-Inv zero w t inv h = ground arith
  walk-Inv (suc fuel) w t inv h = elim (List-cases w.queue) [
    | inl empty ↦ ground arith
    | inr (cur, rest, q) ↦
        walk-Inv fuel (scan cur edges (record w { queue = rest })) t (Inv-round w cur rest q inv)
          (rw (q, walk) at h)
  ]

  -- With an empty queue the lit set is closed under the edges.
  Linked-closed :
      (t : Walk) (es : List KEdge)
      → All (EndsLit t) es
      → All (Settled t) es
      → t.queue ≡ []
      → (u v : Text) → Linked es u v
      → contains t.nodes u ≡ true
      → contains t.nodes v ≡ true
  unfolding contains
  Linked-closed t [] ends settled q u v l lit = absurd l
  Linked-closed t (e ∷ es) ends settled q u v (inr l) lit =
      Linked-closed t es ends.1 settled.1 q u v l lit
  Linked-closed t (e ∷ es) ends settled q u v (inl j) lit = ground (
    arith,
    ends.0,
    settled.0 u,
    ap (λ (l : List Text). contains l u) q,
    text_beq_iff e.from u,
    text_beq_iff e.to u,
    text_beq_iff e.from v,
    text_beq_iff e.to v,
  )

  complete :
      (t : Walk) → Inv t → t.queue ≡ [] → {v : Text} → Reach edges id v → contains t.nodes v ≡ true
  complete t inv q here = inv.source
  complete t inv q (step {u} {v} r l) =
      Linked-closed t edges inv.ends inv.settled q u v l (complete t inv q r)

-- Where no identifier of an edge holds the key's separator, `spotlightSubtree` returns, and it lights
-- exactly the nodes that some undirected walk over the given edges joins to the start.
pub spotlight_subtree_component :
    (id : Text) (edges : List KEdge)
    → All IsPlain edges
    → (t : Walk) × (spotlight_subtree id edges ≡ some t)
      × ((v : Text) → (contains t.nodes v ≡ true) ↔ ∥ Reach edges id v ∥₁)
unfolding spotlight_subtree
spotlight_subtree_component id edges plain =
    let (t, e) = spotlight_subtree_returns id edges in
    let (inv, q) =
      walk-Inv id edges plain (suc (length edges)) (start id) t (Inv-start id edges plain) e in
    (
      t,
      e,
      λ v. (
        λ lit. ∣ inv.lights v lit ∣₁,
        λ r. ∥∥₁_elim r (So-prop _) (λ p. complete id edges plain t inv q p),
      ),
    )
