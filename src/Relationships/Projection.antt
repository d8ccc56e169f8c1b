-- ===== src/Relationships/Projection.antt =====
-- The categories present in a graph draw all that any choice of categories of
-- web/src/relationships.ts can draw.
use kd.Common.{
  ◌≡◌, refl, sym, ◌∙◌, Bool, true, ◌||◌, ◌&&◌, List, [], ◌∷◌, map, ◌==◌, ==_iff, ==_refl,
  if◌then◌else◌, any, contains, contains-add, add, filter, length, arith, Bool-cases, inl, inr, All,
}
use kd.Types.{EdgeType, RelCategory, KEdge, edge_type_eq, rel_eq}
use kd.Relationships.{
  RelCategoryDef, rel_categories, all_rels, edges_of, add_types, active_from, active_edge_types,
  project_from, project_edges, present_from, rel_categories_present,
}

contains-add_types :
    (out ts : List EdgeType) (t : EdgeType)
    → contains (add_types out ts) t ≡ (contains out t || contains ts t)
unfolding add_types contains
contains-add_types out [] t = ground arith
contains-add_types out (u ∷ ts) t =
    ground (arith, contains-add_types (add out u) ts t, contains-add out u t)

contains-active_from :
    (out : List EdgeType) (active : List RelCategory) (t : EdgeType)
    → contains (active_from out active) t
      ≡ (contains out t || any (λ r. contains (edges_of r) t) active)
unfolding active_from
contains-active_from out [] t = ground arith
contains-active_from out (r ∷ rs) t = ground (
  arith,
  contains-active_from (add_types out (edges_of r)) rs t,
  contains-add_types out (edges_of r) t,
)

-- A type is active just when one of the active categories lists it.
pub contains-active_edge_types :
    (active : List RelCategory) (t : EdgeType)
    → contains (active_edge_types active) t ≡ any (λ r. contains (edges_of r) t) active
unfolding active_edge_types contains
contains-active_edge_types active t = contains-active_from [] active t

contains-present_from :
    (present : List EdgeType) (out : List RelCategory) (cs : List RelCategoryDef) (r : RelCategory)
    → contains (present_from present out cs) r
      ≡ (contains out r || any (λ c. c.id == r && any (λ e. contains present e) c.edges) cs)
unfolding present_from
contains-present_from present out [] r = ground arith
contains-present_from present out (c ∷ cs) r =
    elim (Bool-cases (any (λ e. contains present e) c.edges)) [
      | inl h ↦
          ground
            (arith, h, contains-present_from present (add out c.id) cs r, contains-add out c.id r)
      | inr h ↦ ground (arith, h, contains-present_from present out cs r)
    ]

listed :
    (edges : List KEdge) (r : RelCategory)
    → contains (rel_categories_present edges) r
      ≡ any
          (λ c. c.id == r && any (λ t. contains (map (λ (e : KEdge). e.type) edges) t) c.edges)
          rel_categories
unfolding rel_categories_present contains
listed edges r = contains-present_from (map (λ (e : KEdge). e.type) edges) [] rel_categories r

-- A category is present just when one of its types is.
pub contains-rel_categories_present :
    (edges : List KEdge) (r : RelCategory)
    → contains (rel_categories_present edges) r
      ≡ any (λ t. contains (map (λ (e : KEdge). e.type) edges) t) (edges_of r)
unfolding edges_of
contains-rel_categories_present edges RelCategory.ownership =
    ground (arith, listed edges RelCategory.ownership)
contains-rel_categories_present edges RelCategory.network =
    ground (arith, listed edges RelCategory.network)
contains-rel_categories_present edges RelCategory.volumes =
    ground (arith, listed edges RelCategory.volumes)
contains-rel_categories_present edges RelCategory.rbac =
    ground (arith, listed edges RelCategory.rbac)
contains-rel_categories_present edges RelCategory.scheduling =
    ground (arith, listed edges RelCategory.scheduling)
contains-rel_categories_present edges RelCategory.monitoring =
    ground (arith, listed edges RelCategory.monitoring)

any_from :
    (f : RelCategory → Bool) (s : List RelCategory) (r : RelCategory)
    → f r ≡ true
    → contains s r ≡ true
    → any f s ≡ true
unfolding contains
any_from f [] r h k = cc
any_from f (q ∷ s) r h k = ground (arith, any_from f s r, ==_iff q r, h, k)

any_find :
    (f : RelCategory → Bool) (s : List RelCategory)
    → any f s ≡ true
    → (r : RelCategory) × (f r ≡ true)
any_find f [] h = cc
any_find f (r ∷ s) h = elim (Bool-cases (f r)) [
  | inl k ↦ (r, k)
  | inr k ↦ any_find f s (ground (arith, h, k))
]

any-contains :
    (p : EdgeType → Bool) (ts : List EdgeType) (t : EdgeType)
    → contains ts t ≡ true
    → p t ≡ true
    → any p ts ≡ true
unfolding contains
any-contains p [] t h k = cc
any-contains p (u ∷ ts) t h k = ground (arith, any-contains p ts t, ==_iff u t, h, k)

contains-all_rels : (r : RelCategory) → contains all_rels r ≡ true
unfolding contains
contains-all_rels r = ground arith

-- For a type that occurs among the edges, the present categories are as good as all.
active_present :
    (edges : List KEdge) (t : EdgeType)
    → contains (map (λ (e : KEdge). e.type) edges) t ≡ true
    → any (λ r. contains (edges_of r) t) (rel_categories_present edges)
      ≡ any (λ r. contains (edges_of r) t) all_rels
active_present edges t h = elim (Bool-cases (any (λ r. contains (edges_of r) t) all_rels)) [
  | inl k ↦
      let (r, f) = any_find (λ r. contains (edges_of r) t) all_rels k in
      any_from (λ r. contains (edges_of r) t) (rel_categories_present edges) r f
        (contains-rel_categories_present edges r
          ∙ any-contains (λ u. contains (map (λ (e : KEdge). e.type) edges) u) (edges_of r) t f h)
      ∙ sym k
  | inr k ↦ elim (Bool-cases (any (λ r. contains (edges_of r) t) (rel_categories_present edges))) [
    | inl l ↦
        let (r, f) = any_find (λ r. contains (edges_of r) t) (rel_categories_present edges) l in
        let g = any_from (λ r. contains (edges_of r) t) all_rels r f (contains-all_rels r) in
        absurd (ground (arith, g, k))
    | inr l ↦ l ∙ sym k
  ]
]

project-congr :
    (ts us : List EdgeType) (es : List KEdge)
    → All (λ (e : KEdge). contains ts e.type ≡ contains us e.type) es
    → project_from ts es ≡ project_from us es
unfolding project_from
project-congr ts us [] h = refl
project-congr ts us (e ∷ es) h = rw h.0 (rw (project-congr ts us es h.1) refl)

occurring :
    (all es : List KEdge)
    → All (λ (e : KEdge). contains (map (λ (d : KEdge). d.type) all) e.type ≡ true) es
    → All
        (λ (e : KEdge).
          contains (active_edge_types (rel_categories_present all)) e.type
          ≡ contains (active_edge_types all_rels) e.type)
        es
occurring all [] h = tt
occurring all (e ∷ es) h = (
  contains-active_edge_types (rel_categories_present all) e.type
      ∙ active_present all e.type h.0
      ∙ sym (contains-active_edge_types all_rels e.type),
  occurring all es h.1,
)

occurs :
    (types : List EdgeType) (es : List KEdge)
    → ((t : EdgeType)
        → contains (map (λ (d : KEdge). d.type) es) t ≡ true
        → contains types t ≡ true)
    → All (λ (e : KEdge). contains types e.type ≡ true) es
unfolding contains
occurs types [] sub = tt
occurs types (e ∷ es) sub = (
  sub e.type (ground (arith, ==_refl e.type)),
  occurs types es (λ t h. sub t (ground (arith, h))),
)

-- Drawing the categories that are present in a graph draws what drawing every category does.
pub project_edges-present :
    (edges : List KEdge)
    → project_edges edges (rel_categories_present edges) ≡ project_edges edges all_rels
unfolding project_edges
project_edges-present edges =
    project-congr (active_edge_types (rel_categories_present edges)) (active_edge_types all_rels)
      edges (occurring edges edges (occurs (map (λ (d : KEdge). d.type) edges) edges (λ t h. h)))

-- Every type but `scheduledOn` is listed by exactly one category, and `scheduledOn` by none.
pub rel_categories-partition :
    (t : EdgeType)
    → length (filter (λ (c : RelCategoryDef). contains c.edges t) rel_categories)
      ≡ (if t == EdgeType.scheduled_on then 0 else 1)
unfolding contains
rel_categories-partition t = ground arith
