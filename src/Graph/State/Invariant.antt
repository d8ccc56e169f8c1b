-- ===== src/Graph/State/Invariant.antt =====
-- What the reducer of web/src/graphState.ts keeps true over a whole stream of events.
use kd.Common.{
  ◌≡◌, refl, sym, ◌∙◌, false, not, Option, none, some, List, [], ◌∷◌, ◌++◌, map-append, Text,
  text_eq, ◌==◌, if◌then◌else◌, lookup, contains, filter, contains-append, text_beq_iff, Bool-cases,
  inl, inr, ◌⊎◌, ⊎_elim, arith,
}
use kd.Types.{KNode, KEdge, KGraph, Patch, or_empty}
use kd.Graph.State.{GraphState, edge_key, push_edges, from_snapshot, apply_patch}
use kd.Graph.State.View.{
  edge_keys, latest, lookup-put_nodes, lookup-apply_patch, contains-apply_patch,
  contains-keys-filter, present-push,
}

-- No two edges have one key.
abbrev pub Distinct : List Text → Type 0
Distinct [] = Unit
Distinct (k ∷ ks) = (contains ks k ≡ false) × Distinct ks

pub record IsConsistent (s : GraphState) : Type 0 where
  pub keyed : (id : Text) (n : KNode) → lookup id s.nodes ≡ some n → n.id ≡ id
  pub distinct : Distinct (edge_keys s.edges)

latest-id :
    (id : Text) (ns : List KNode) (old : Option KNode) (n : KNode)
    → ((m : KNode) → old ≡ some m → m.id ≡ id)
    → latest id ns old ≡ some n
    → n.id ≡ id
latest-id id [] old n h e = h n e
latest-id id (m ∷ ns) old n h e =
    latest-id id ns (if m.id == id then some m else old) n
      (λ k q. ground (arith, text_beq_iff m.id id, h k)) e

Distinct-filter :
    (removed : List Text) (es : List KEdge)
    → Distinct (edge_keys es)
    → Distinct (edge_keys (filter (λ e. not (contains removed (edge_key e))) es))
Distinct-filter removed [] d = tt
Distinct-filter removed (e ∷ es) d =
    ground (arith, Distinct-filter removed es d.1, contains-keys-filter removed es (edge_key e))

Distinct-snoc :
    (ks : List Text) (k : Text) → contains ks k ≡ false → Distinct ks → Distinct (ks ++ k ∷ [])
unfolding contains
Distinct-snoc [] k h d = (refl, tt)
Distinct-snoc (j ∷ ks) k h d =
    ground
      (arith, Distinct-snoc ks k, contains-append ks (k ∷ []) j, text_beq_iff j k, text_beq_iff k j)

Distinct-push :
    (edges : List KEdge) (present : List Text) (es : List KEdge)
    → ((j : Text) → contains present j ≡ contains (edge_keys edges) j)
    → Distinct (edge_keys edges)
    → Distinct (edge_keys (push_edges edges present es))
unfolding push_edges
Distinct-push edges present [] h d = d
Distinct-push edges present (e ∷ es) h d = elim (Bool-cases (contains present (edge_key e))) [
  | inl had ↦ rw had (Distinct-push edges present es h d)
  | inr new ↦ rw new (
      Distinct-push (edges ++ e ∷ []) _ es (λ j. present-push edges present e j (h j))
        (rw (map-append edge_key edges (e ∷ []))
          (Distinct-snoc (edge_keys edges) (edge_key e) (sym (h (edge_key e)) ∙ new) d)))
]

pub apply_patch-IsConsistent :
    (s : GraphState) (p : Patch) → IsConsistent s → IsConsistent (apply_patch s p)
unfolding apply_patch
apply_patch-IsConsistent s p c = record {
  keyed = λ id n e.
      latest-id id (or_empty p.upsert_nodes) (lookup id s.nodes) n (c.keyed id)
        (ground (arith, lookup-apply_patch s p id));
  distinct =
      Distinct-push _ _ (or_empty p.upsert_edges) (λ j. refl)
        (Distinct-filter (edge_keys (or_empty p.remove_edges)) s.edges c.distinct);
}

pub from_snapshot-IsConsistent :
    (g : KGraph) → Distinct (edge_keys (or_empty g.edges)) → IsConsistent (from_snapshot g)
unfolding from_snapshot lookup
from_snapshot-IsConsistent g d = record {
  keyed = λ id n e.
      latest-id id (or_empty g.nodes) none n (λ m q. cc)
        (sym (lookup-put_nodes id [] (or_empty g.nodes)) ∙ e);
  distinct = d;
}

-- The states that a stream of events leads to: a snapshot starts afresh, a patch is applied.
pub data Reached : GraphState → Type 0 where
  snapshot : (g : KGraph) → Distinct (edge_keys (or_empty g.edges)) → Reached (from_snapshot g)
  patch : {s : GraphState} (p : Patch) → Reached s → Reached (apply_patch s p)

-- If the snapshots of the server repeat no edge, then after any stream of events no two edges of the
-- state have one key, and each node is stored under its own identifier.
pub Reached-IsConsistent : {s : GraphState} → Reached s → IsConsistent s
Reached-IsConsistent (snapshot g d) = from_snapshot-IsConsistent g d
Reached-IsConsistent (patch p r) = apply_patch-IsConsistent _ p (Reached-IsConsistent r)

-- A list of writes either does not touch an identifier, or decides it whatever stood there.
latest-cases :
    (id : Text) (ns : List KNode)
    → ((a : Option KNode) → latest id ns a ≡ a)
      ⊎ ((a b : Option KNode) → latest id ns a ≡ latest id ns b)
latest-cases id [] = inl (λ a. refl)
latest-cases id (n ∷ ns) = elim (latest-cases id ns) [
  | inr decided ↦ inr (λ a b. decided _ _)
  | inl untouched ↦ elim (Bool-cases (n.id == id)) [
    | inl hit ↦ inr (λ a b. rw hit refl)
    | inr miss ↦ inl (λ a. rw miss (untouched a))
  ]
]

latest_idem :
    (id : Text) (ns : List KNode) (a : Option KNode)
    → latest id ns (latest id ns a) ≡ latest id ns a
latest_idem id ns a =
    ⊎_elim (λ untouched. untouched _) (λ decided. decided _ _) (latest-cases id ns)

-- A patch that is delivered twice has the effect of one delivery: the same node at every
-- identifier, and the same set of edge keys.
pub apply_patch_idem :
    (s : GraphState) (p : Patch)
    → ((id : Text)
        → lookup id (apply_patch (apply_patch s p) p).nodes ≡ lookup id (apply_patch s p).nodes)
      × ((k : Text)
          → contains (edge_keys (apply_patch (apply_patch s p) p).edges) k
            ≡ contains (edge_keys (apply_patch s p).edges) k)
apply_patch_idem s p = (
  λ id. ground (
    arith,
    lookup-apply_patch (apply_patch s p) p id,
    lookup-apply_patch s p id,
    latest_idem id (or_empty p.upsert_nodes) (lookup id s.nodes),
  ),
  λ k. ground (arith, contains-apply_patch (apply_patch s p) p k, contains-apply_patch s p k),
)
