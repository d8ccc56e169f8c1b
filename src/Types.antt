-- ===== src/Types.antt =====
-- web/src/types.ts: the graph that the server sends, and the enumerations of the client.
use kd.Common.{
  ℕ, ◌≡◌, ◌↔◌, Bool, true, Option, none, some, List, [], ◌∷◌, Text, text, Eq, nat_beq, arith,
}

pub data Health : Type 0 where
  healthy progressing degraded suspended unknown : Health

pub data EdgeType : Type 0 where
  owner_reference scheduled_on selects routes mounts uses_service_account : EdgeType
  binds refers guards governs scrapes : EdgeType

pub data RelCategory : Type 0 where
  ownership network volumes rbac scheduling monitoring : RelCategory

-- CPU in millicores, memory in bytes; an absent quantity differs from zero.
pub record Resources : Type 0 where
  pub cpu_milli : Option ℕ
  pub mem_bytes : Option ℕ
  pub pods : Option ℕ

pub record ContainerUsage : Type 0 where
  pub name : Text
  pub cpu_milli : Option ℕ
  pub mem_bytes : Option ℕ

pub record ResourceUsage : Type 0 where
  pub cpu_milli : Option ℕ
  pub mem_bytes : Option ℕ
  pub containers : Option (List ContainerUsage)

pub record ContainerStatus : Type 0 where
  pub name : Text
  pub init : Option Bool
  pub sidecar : Option Bool
  pub cpu_limit_milli : Option ℕ
  pub mem_limit_bytes : Option ℕ
  pub cpu_request_milli : Option ℕ
  pub mem_request_bytes : Option ℕ

-- The fields that the modelled code reads; those that only a component prints are left out.
pub record KNode : Type 0 where
  pub id : Text
  pub kind : Text
  pub namespace : Option Text
  pub name : Text
  pub health : Health
  pub status : Option Text
  pub images : Option (List Text)
  pub host : Option Text
  pub allocatable : Option Resources
  pub capacity_res : Option Resources
  pub requests : Option Resources
  pub limits : Option Resources
  pub cluster_ip : Option Text
  pub external_ip : Option Text
  pub container_statuses : Option (List ContainerStatus)
  pub labels : Option (List (Text × Text))
  pub owner_uids : Option (List Text)

pub record KEdge : Type 0 where
  pub from : Text
  pub to : Text
  pub type : EdgeType

-- `nodes` and `edges` may be null on the wire (see fromSnapshot).
pub record KGraph : Type 0 where
  pub nodes : Option (List KNode)
  pub edges : Option (List KEdge)

pub record Patch : Type 0 where
  pub upsert_nodes : Option (List KNode)
  pub remove_node_ids : Option (List Text)
  pub upsert_edges : Option (List KEdge)
  pub remove_edges : Option (List KEdge)

-- `x ?? []`
abbrev pub or_empty {ℓ} : {A : Type ℓ} → Option (List A) → List A
or_empty none = []
or_empty (some xs) = xs

-- A string that is absent or empty is falsy.
abbrev pub truthy : Option Text → Option Text
truthy none = none
truthy (some []) = none
truthy (some (c ∷ s)) = some (c ∷ s)

-- The string that the union type `EdgeType` stands for.
abbrev pub edge_type_name : EdgeType → Text
edge_type_name EdgeType.owner_reference = text "ownerReference"
edge_type_name EdgeType.scheduled_on = text "scheduledOn"
edge_type_name EdgeType.selects = text "selects"
edge_type_name EdgeType.routes = text "routes"
edge_type_name EdgeType.mounts = text "mounts"
edge_type_name EdgeType.uses_service_account = text "usesServiceAccount"
edge_type_name EdgeType.binds = text "binds"
edge_type_name EdgeType.refers = text "refers"
edge_type_name EdgeType.guards = text "guards"
edge_type_name EdgeType.governs = text "governs"
edge_type_name EdgeType.scrapes = text "scrapes"

abbrev pub health_rank : Health → ℕ
health_rank Health.healthy = 0
health_rank Health.progressing = 1
health_rank Health.degraded = 2
health_rank Health.suspended = 3
health_rank Health.unknown = 4

abbrev pub edge_type_rank : EdgeType → ℕ
edge_type_rank EdgeType.owner_reference = 0
edge_type_rank EdgeType.scheduled_on = 1
edge_type_rank EdgeType.selects = 2
edge_type_rank EdgeType.routes = 3
edge_type_rank EdgeType.mounts = 4
edge_type_rank EdgeType.uses_service_account = 5
edge_type_rank EdgeType.binds = 6
edge_type_rank EdgeType.refers = 7
edge_type_rank EdgeType.guards = 8
edge_type_rank EdgeType.governs = 9
edge_type_rank EdgeType.scrapes = 10

abbrev pub rel_rank : RelCategory → ℕ
rel_rank RelCategory.ownership = 0
rel_rank RelCategory.network = 1
rel_rank RelCategory.volumes = 2
rel_rank RelCategory.rbac = 3
rel_rank RelCategory.scheduling = 4
rel_rank RelCategory.monitoring = 5

pub health_beq_iff : (a b : Health) → (nat_beq (health_rank a) (health_rank b) ≡ true) ↔ (a ≡ b)
health_beq_iff a b = ground arith

pub edge_type_beq_iff :
    (a b : EdgeType) → (nat_beq (edge_type_rank a) (edge_type_rank b) ≡ true) ↔ (a ≡ b)
edge_type_beq_iff a b = ground arith

pub rel_beq_iff : (a b : RelCategory) → (nat_beq (rel_rank a) (rel_rank b) ≡ true) ↔ (a ≡ b)
rel_beq_iff a b = ground arith

instance abbrev pub health_eq : Eq Health
health_eq = record {
  same = λ a b. nat_beq (health_rank a) (health_rank b);
  same_iff = health_beq_iff;
}

instance abbrev pub edge_type_eq : Eq EdgeType
edge_type_eq = record {
  same = λ a b. nat_beq (edge_type_rank a) (edge_type_rank b);
  same_iff = edge_type_beq_iff;
}

instance abbrev pub rel_eq : Eq RelCategory
rel_eq = record { same = λ a b. nat_beq (rel_rank a) (rel_rank b); same_iff = rel_beq_iff }
