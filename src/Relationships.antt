-- ===== src/Relationships.antt =====
-- web/src/relationships.ts: the relationship categories and the projection of the edges.
pub mod Projection
pub mod Link
use kd.Common.{
  ◌≡◌, Bool, true, false, Option, none, some, List, [], ◌∷◌, map, Text, text, text_eq, ◌==◌,
  if◌then◌else◌, any, contains, add, find?, split_unit,
}
use kd.Types.{EdgeType, RelCategory, KEdge, edge_type_eq, rel_eq}

pub record RelCategoryDef : Type 0 where
  pub id : RelCategory
  pub label : Text
  pub hint : Text
  pub edges : List EdgeType
  pub secondary : Option Bool

-- The string that the union type `RelCategory` stands for.
abbrev pub rel_name : RelCategory → Text
rel_name RelCategory.ownership = text "ownership"
rel_name RelCategory.network = text "network"
rel_name RelCategory.volumes = text "volumes"
rel_name RelCategory.rbac = text "rbac"
rel_name RelCategory.scheduling = text "scheduling"
rel_name RelCategory.monitoring = text "monitoring"

abbrev pub rel_category : RelCategory → Text → Text → List EdgeType → Option Bool → RelCategoryDef
rel_category id label hint edges secondary = record {
  id = id;
  label = label;
  hint = hint;
  edges = edges;
  secondary = secondary;
}

-- REL_CATEGORIES
abbrev pub rel_categories : List RelCategoryDef
rel_categories =
    rel_category RelCategory.ownership (text "Ownership")
      (text "Parent→child workload tree (ownerReferences + CRD refs)")
      (EdgeType.owner_reference ∷ EdgeType.refers ∷ []) none
    ∷ rel_category RelCategory.network (text "Network")
        (text "Ingress→Service→Pod traffic + the NetworkPolicies that govern pods")
        (EdgeType.routes ∷ EdgeType.selects ∷ EdgeType.governs ∷ []) none
    ∷ rel_category RelCategory.volumes (text "Volumes")
        (text "Pods and the ConfigMaps/Secrets/PVCs they mount") (EdgeType.mounts ∷ []) none
    ∷ rel_category RelCategory.rbac (text "RBAC")
        (text "Bindings → Roles and the ServiceAccounts they grant")
        (EdgeType.binds ∷ EdgeType.uses_service_account ∷ []) (some true)
    ∷ rel_category RelCategory.scheduling (text "Disruption")
        (text "PodDisruptionBudgets → the pods they guard (pod↔node lives in the Nodes view)")
        (EdgeType.guards ∷ []) (some true)
    ∷ rel_category RelCategory.monitoring (text "Monitoring")
        (text "ServiceMonitors/VMServiceScrapes → the Services they scrape") (EdgeType.scrapes ∷ [])
        (some true)
    ∷ []

-- The categories of the table.
abbrev pub all_rels : List RelCategory
all_rels = map (λ (c : RelCategoryDef). c.id) rel_categories

-- `BY_ID.get(id)?.edges ?? []`
unfoldable pub edges_of : RelCategory → List EdgeType
edges_of id = elim (find? (λ c. c.id == id) rel_categories) [ none ↦ [] | some c ↦ c.edges ]

-- `REL_ALIASES[x] ?? x`; what a plain object inherits is no id either.
abbrev pub rel_alias : Text → Text
rel_alias x = if x == text "disruption" then text "scheduling" else x

-- The id that a string is, where `REL_IDS` has it.
unfoldable pub rel_id : Text → Option RelCategory
rel_id x = find? (λ r. rel_name r == x) all_rels

-- `toLowerCase` of the host.
module _ (to_lower_case : Text → Text) where
  -- `new Set(parts.map(…).filter(…))`, with the set so far.
  unfoldable pub collect_rels : List RelCategory → List Text → List RelCategory
  collect_rels out [] = out
  collect_rels out (x ∷ xs) = elim (rel_id (rel_alias (to_lower_case x))) [
    | none ↦ collect_rels out xs
    | some r ↦ collect_rels (add out r) xs
  ]

  unfoldable pub parse_rels : Option Text → Option (List RelCategory)
  parse_rels none = none
  parse_rels (some raw) = some (collect_rels [] (split_unit b',' raw))

-- The inner and the outer loop of `activeEdgeTypes`.
unfoldable pub add_types : List EdgeType → List EdgeType → List EdgeType
add_types out [] = out
add_types out (t ∷ ts) = add_types (add out t) ts

unfoldable pub active_from : List EdgeType → List RelCategory → List EdgeType
active_from out [] = out
active_from out (id ∷ ids) = active_from (add_types out (edges_of id)) ids

unfoldable pub active_edge_types : List RelCategory → List EdgeType
active_edge_types active = active_from [] active

-- `REVERSE_EDGES.has(t)`
abbrev pub is_reversed : EdgeType → Bool
is_reversed t = contains (EdgeType.refers ∷ []) t

abbrev pub oriented : KEdge → KEdge
oriented e = if is_reversed e.type then record e { from = e.to; to = e.from } else e

-- The loop of `projectEdges`.
unfoldable pub project_from : List EdgeType → List KEdge → List KEdge
project_from types [] = []
project_from types (e ∷ es) =
    let rest = project_from types es in if contains types e.type then oriented e ∷ rest else rest

unfoldable pub project_edges : List KEdge → List RelCategory → List KEdge
project_edges edges active = project_from (active_edge_types active) edges

-- The loop of `relCategoriesPresent`.
unfoldable pub present_from :
    List EdgeType → List RelCategory → List RelCategoryDef → List RelCategory
present_from present out [] = out
present_from present out (c ∷ cs) =
    present_from present (if any (λ e. contains present e) c.edges then add out c.id else out) cs

unfoldable pub rel_categories_present : List KEdge → List RelCategory
rel_categories_present edges = present_from (map (λ (e : KEdge). e.type) edges) [] rel_categories
