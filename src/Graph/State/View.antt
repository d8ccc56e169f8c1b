-- ===== src/Graph/State/View.antt =====
-- What a patch does to the state, read as a map of nodes and a set of edge keys.
use kd.Common.{
  ◌≡◌, refl, ap, ◌∙◌, not, ◌||◌, ◌&&◌, Option, none, some, List, [], ◌∷◌, ◌++◌, map, Text, text_eq,
  ◌==◌, if◌then◌else◌, lookup, insert, erase, contains, add, map-append, filter, lookup-insert,
  lookup-erase, contains-append, contains-add, text_beq_iff, Bool-cases, inl, inr, arith,
}
use kd.Types.{KNode, KEdge, Patch, or_empty}
use kd.Graph.State.{GraphState, edge_key, put_nodes, delete_nodes, push_edges, apply_patch}

abbrev pub edge_keys : List KEdge → List Text
edge_keys = map edge_key

-- The node that a list of writes leaves at an identifier: the last one that has it.
abbrev pub latest : Text → List KNode → Option KNode → Option KNode
latest id [] old = old
latest id (n ∷ ns) old = latest id ns (if n.id == id then some n else old)

pub lookup-put_nodes :
    (id : Text) (m : List (Text × KNode)) (ns : List KNode)
    → lookup id (put_nodes m ns) ≡ latest id ns (lookup id m)
unfolding put_nodes
lookup-put_nodes id m [] = refl
lookup-put_nodes id m (n ∷ ns) =
    lookup-put_nodes id (insert n.id n m) ns ∙ ap (latest id ns) (lookup-insert n.id id n m)

pub lookup-delete_nodes :
    (id : Text) (m : List (Text × KNode)) (ids : List Text)
    → lookup id (delete_nodes m ids) ≡ (if contains ids id then none else lookup id m)
unfolding delete_nodes contains
lookup-delete_nodes id m [] = refl
lookup-delete_nodes id m (k ∷ ids) =
    ground (arith, lookup-delete_nodes id (erase k m) ids, lookup-erase k id m)

pub contains-keys-filter :
    (removed : List Text) (es : List KEdge) (k : Text)
    → contains (edge_keys (filter (λ e. not (contains removed (edge_key e))) es)) k
      ≡ (contains (edge_keys es) k && not (contains removed k))
unfolding contains
contains-keys-filter removed [] k = refl
contains-keys-filter removed (e ∷ es) k =
    ground (arith, contains-keys-filter removed es k, text_beq_iff (edge_key e) k)

-- The set of keys stays in step with the list of edges when an edge is pushed.
pub present-push :
    (edges : List KEdge) (present : List Text) (e : KEdge) (j : Text)
    → contains present j ≡ contains (edge_keys edges) j
    → contains (add present (edge_key e)) j ≡ contains (edge_keys (edges ++ e ∷ [])) j
unfolding contains
present-push edges present e j h = ground (
  arith,
  contains-add present (edge_key e) j,
  map-append edge_key edges (e ∷ []),
  contains-append (edge_keys edges) (edge_key e ∷ []) j,
)

contains-keys-push :
    (edges : List KEdge) (present : List Text) (es : List KEdge) (k : Text)
    → ((j : Text) → contains present j ≡ contains (edge_keys edges) j)
    → contains (edge_keys (push_edges edges present es)) k
      ≡ (contains (edge_keys edges) k || contains (edge_keys es) k)
unfolding push_edges contains
contains-keys-push edges present [] k h = ground arith
contains-keys-push edges present (e ∷ es) k h = elim (Bool-cases (contains present (edge_key e))) [
  | inl had ↦
      rw had
        (ground (arith, contains-keys-push edges present es k h, h k, text_beq_iff (edge_key e) k))
  | inr new ↦ rw new (
      ground (
        arith,
        contains-keys-push (edges ++ e ∷ []) (add present (edge_key e)) es k
            (λ j. present-push edges present e j (h j)),
        map-append edge_key edges (e ∷ []),
        contains-append (edge_keys edges) (edge_key e ∷ []) k,
        text_beq_iff (edge_key e) k,
      ))
]

-- Applying a patch puts exactly this node at every identifier: none where it is among the removed
-- ones, else the last upserted node with it, else the node that was there.
pub lookup-apply_patch :
    (s : GraphState) (p : Patch) (id : Text)
    → lookup id (apply_patch s p).nodes ≡ (
        if contains (or_empty p.remove_node_ids) id
        then none
        else latest id (or_empty p.upsert_nodes) (lookup id s.nodes))
unfolding apply_patch
lookup-apply_patch s p id = ground (
  arith,
  lookup-delete_nodes id (put_nodes s.nodes (or_empty p.upsert_nodes)) (or_empty p.remove_node_ids),
  lookup-put_nodes id s.nodes (or_empty p.upsert_nodes),
)

-- After a patch an edge key is present exactly if it is upserted, or was present and is not removed;
-- so an edge that one patch removes and upserts stays.
pub contains-apply_patch :
    (s : GraphState) (p : Patch) (k : Text)
    → contains (edge_keys (apply_patch s p).edges) k ≡ (
        contains (edge_keys s.edges) k && not (contains (edge_keys (or_empty p.remove_edges)) k)
        || contains (edge_keys (or_empty p.upsert_edges)) k)
unfolding apply_patch
contains-apply_patch s p k =
    let removed = edge_keys (or_empty p.remove_edges) in
    let kept = filter (λ e. not (contains removed (edge_key e))) s.edges in
    contains-keys-push kept (edge_keys kept) (or_empty p.upsert_edges) k (λ j. refl)
    ∙ ap (λ b. b || contains (edge_keys (or_empty p.upsert_edges)) k)
        (contains-keys-filter removed s.edges k)
