-- ===== src/Bars.antt =====
-- web/src/resourceBars.ts: the bars of the drawer. A fraction of a bar is the exact ratio that the
-- floating point number stands for.
pub mod Ruler
use kd.Common.{
  ℕ, zero, Bool, true, false, not, ◌&&◌, Option, none, some, List, [], ◌∷◌, ◌++◌, map, Text, text,
  text_eq, nat_eq, ◌==◌, if◌then◌else◌, is_nil, ltb, find?, max,
}
use kd.Types.{KNode, Resources, ResourceUsage, truthy}
use kd.UrlState.{CapResource}

-- A ratio; over 0 it is 0.
pub record Ratio : Type 0 where
  pub part : ℕ
  pub whole : ℕ

pub record ResBar : Type 0 where
  pub key : Text
  pub label : Text
  pub ceil : Option ℕ
  pub usage : Option ℕ
  pub fill_frac : Ratio
  pub bound_frac : Option Ratio
  pub over : Bool
  pub unconstrained : Bool

pub record ResGroup : Type 0 where
  pub res : CapResource
  pub label : Text
  pub unit_ref : ℕ
  pub bars : List ResBar

pub record ResBarInputs : Type 0 where
  pub is_node : Bool
  pub usage : Option ResourceUsage
  pub capacity : Option Resources
  pub allocatable : Option Resources
  pub request : Option Resources
  pub limit : Option Resources
  pub host_capacity : Option Resources

pub record Bound : Type 0 where
  pub key : Text
  pub label : Text
  pub val : ℕ

-- `resourceOf` at its two types.
abbrev pub resource_of : Option Resources → CapResource → Option ℕ
resource_of none res = none
resource_of (some r) CapResource.cpu = r.cpu_milli
resource_of (some r) CapResource.memory = r.mem_bytes

abbrev pub usage_of : Option ResourceUsage → CapResource → Option ℕ
usage_of none res = none
usage_of (some r) CapResource.cpu = r.cpu_milli
usage_of (some r) CapResource.memory = r.mem_bytes

abbrev pub or_zero : Option ℕ → ℕ
or_zero none = 0
or_zero (some v) = v

-- `Math.max` of values that are not negative; it is never called without any.
abbrev pub math_max : List ℕ → ℕ
math_max [] = 0
math_max (v ∷ vs) = max v (math_max vs)

abbrev pub vals : List Bound → List ℕ
vals bounds = map (λ b. b.val) bounds

-- `Math.max(use ?? 0, ...bounds.map((b) => b.val))` of `scaleBars`
unfoldable pub group_max : List Bound → Option ℕ → ℕ
group_max bounds used = math_max (or_zero used ∷ vals bounds)

-- `Math.max(...bounds.map((b) => b.val))` of `drawerResourceBars`
unfoldable pub unit_ref_of : List Bound → ℕ
unit_ref_of bounds = math_max (vals bounds)

abbrev pub is_over : Option ℕ → ℕ → Bool
is_over none val = false
is_over (some used) val = ltb val used

-- The callback of `map` in `scaleBars`.
abbrev pub scale_bar : Option ℕ → ℕ → Bound → ResBar
scale_bar used whole b = record {
  key = b.key;
  label = b.label;
  ceil = some b.val;
  usage = used;
  fill_frac = record { part = or_zero used; whole = whole };
  bound_frac = some (record { part = b.val; whole = whole });
  over = is_over used b.val;
  unconstrained = false;
}

unfoldable pub scale_bars : List Bound → Option ℕ → List ResBar
scale_bars bounds used = map (scale_bar used (group_max bounds used)) bounds

-- The bound, where there is one and it is positive.
abbrev pub bound : Text → Text → Option ℕ → List Bound
bound key label none = []
bound key label (some v) = if v == 0 then [] else record { key = key; label = label; val = v } ∷ []

unfoldable pub bounds_of : ResBarInputs → CapResource → List Bound
bounds_of input res =
    if input.is_node
    then bound (text "cap") (text "Cap") (resource_of input.capacity res)
      ++ bound (text "alloc") (text "Alloc") (resource_of input.allocatable res)
    else let own =
        bound (text "lim") (text "Lim") (resource_of input.limit res)
        ++ bound (text "req") (text "Req") (resource_of input.request res) in
      if is_nil own
      then bound (text "node") (text "Node") (resource_of input.host_capacity res)
      else own

abbrev pub res_label : CapResource → Text
res_label CapResource.cpu = text "CPU"
res_label CapResource.memory = text "Mem"

-- `use || 1`
abbrev pub or_one : ℕ → ℕ
or_one used = if used == 0 then 1 else used

abbrev pub ungauged : CapResource → ℕ → ResGroup
ungauged res used = record {
  res = res;
  label = res_label res;
  unit_ref = or_one used;
  bars =
      record {
        key = text "none";
        label = text "Use";
        ceil = none;
        usage = some used;
        fill_frac = record { part = 0; whole = 1 };
        bound_frac = none;
        over = false;
        unconstrained = true;
      }
      ∷ [];
}

-- The body of the loop.
unfoldable pub group_of : ResBarInputs → CapResource → List ResGroup
group_of input res =
    let used = usage_of input.usage res in
    let bounds = bounds_of input res in
    if is_nil bounds
    then (elim used [ none ↦ [] | some u ↦ ungauged res u ∷ [] ])
    else record {
      res = res;
      label = res_label res;
      unit_ref = unit_ref_of bounds;
      bars = scale_bars bounds used;
    }
      ∷ []

unfoldable pub drawer_resource_bars : ResBarInputs → List ResGroup
drawer_resource_bars input = group_of input CapResource.cpu ++ group_of input CapResource.memory

abbrev pub first_res : Option Resources → Option Resources → Option Resources
first_res none b = b
first_res (some a) b = some a

-- The capacity of the node that the pod runs on.
unfoldable pub host_node_capacity : Option Text → List KNode → Option Resources
host_node_capacity host capacity_nodes = elim (truthy host) [
  | none ↦ none
  | some name ↦ elim (find? (λ n. n.kind == text "Node" && n.name == name) capacity_nodes) [
    | none ↦ none
    | some n ↦ first_res n.capacity_res n.allocatable
  ]
]
