-- ===== src/Graph/State/Neighbors.antt =====
-- `spotlightNeighbors` of web/src/graphState.ts lights one hop.
use kd.Common.{
  ◌≡◌, true, ◌||◌, ◌&&◌, List, [], ◌∷◌, Text, text_eq, ◌==◌, contains, contains-add, text_beq_iff,
  arith, any,
}
use kd.Types.{KEdge}
use kd.Graph.State.{Lit, edge_key, other_end, light_edge, neighbors_from, spotlight_neighbors}
use kd.Graph.State.Spotlight.{joins}
use kd.Graph.State.Rounds.{touches}

light_edge-nodes :
    (id : Text) (e : KEdge) (l : Lit) (v : Text)
    → contains l.nodes id ≡ true
    → contains (light_edge id e l).nodes v ≡ (contains l.nodes v || joins e id v)
unfolding light_edge
light_edge-nodes id e l v h = ground (
  arith,
  contains-add l.nodes (other_end id e) v,
  text_beq_iff e.from id,
  text_beq_iff e.to id,
  text_beq_iff e.from v,
  text_beq_iff e.to v,
  text_beq_iff id v,
)

neighbors_from-nodes :
    (id : Text) (es : List KEdge) (l : Lit) (v : Text)
    → contains l.nodes id ≡ true
    → contains (neighbors_from id es l).nodes v ≡ (contains l.nodes v || any (λ e. joins e id v) es)
unfolding neighbors_from
neighbors_from-nodes id [] l v h = ground arith
neighbors_from-nodes id (e ∷ es) l v h = ground (
  arith,
  neighbors_from-nodes id es (light_edge id e l) v,
  light_edge-nodes id e l v h,
  light_edge-nodes id e l id h,
)

light_edge-edges :
    (id : Text) (e : KEdge) (l : Lit) (k : Text)
    → contains (light_edge id e l).edges k ≡ (contains l.edges k || touches id e && edge_key e == k)
unfolding light_edge
light_edge-edges id e l k = ground (arith, contains-add l.edges (edge_key e) k)

neighbors_from-edges :
    (id : Text) (es : List KEdge) (l : Lit) (k : Text)
    → contains (neighbors_from id es l).edges k
      ≡ (contains l.edges k || any (λ e. touches id e && edge_key e == k) es)
unfolding neighbors_from
neighbors_from-edges id [] l k = ground arith
neighbors_from-edges id (e ∷ es) l k =
    ground (arith, neighbors_from-edges id es (light_edge id e l) k, light_edge-edges id e l k)

-- `spotlightNeighbors` lights a node exactly if it is the given one or some edge joins the two, and
-- an edge key exactly if it is the key of an edge at the given node.
pub spotlight_neighbors_lem :
    (id : Text) (es : List KEdge)
    → ((v : Text)
        → contains (spotlight_neighbors id es).nodes v ≡ (id == v || any (λ e. joins e id v) es))
      × ((k : Text)
          → contains (spotlight_neighbors id es).edges k
            ≡ any (λ e. touches id e && edge_key e == k) es)
unfolding spotlight_neighbors contains
spotlight_neighbors_lem id es = (
  λ v. ground (
    arith,
    neighbors_from-nodes id es (record { nodes = id ∷ []; edges = [] }) v,
    text_beq_iff id id,
  ),
  λ k. ground (arith, neighbors_from-edges id es (record { nodes = id ∷ []; edges = [] }) k),
)
