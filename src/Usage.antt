-- ===== src/Usage.antt =====
-- web/src/usageAggregate.ts: the usage of a workload, summed over its pods.
pub mod Totals
pub mod Report
use kd.Common.{
  ℕ, zero, suc, ◌+◌, Bool, true, false, not, ◌&&◌, Option, none, some, List, [], ◌∷◌, ◌++◌, map,
  Text, text_eq, if◌then◌else◌, ltb, is_nil, length, lookup, insert, Ordering, sort,
}
use kd.Types.{KNode, Resources, ContainerUsage, ResourceUsage, ContainerStatus, or_empty}

pub record SegBounds : Type 0 where
  pub req_cpu : Option ℕ
  pub req_mem : Option ℕ
  pub lim_cpu : Option ℕ
  pub lim_mem : Option ℕ

pub record PodShare : Type 0 where
  pub name : Text
  pub cpu_milli : ℕ
  pub mem_bytes : ℕ
  pub bounds : SegBounds

pub record WorkloadUsage : Type 0 where
  pub usage : ResourceUsage
  pub requests : Option Resources
  pub limits : Option Resources
  pub pod_count : ℕ
  pub metered_pods : ℕ
  pub pods : List PodShare
  pub container_bounds : Option (List (Text × SegBounds))

-- `x ?? 0`
abbrev pub or_zero : Option ℕ → ℕ
or_zero none = 0
or_zero (some n) = n

-- `if (x != null) acc += x`, where an absent sum is one that has seen no value.
abbrev pub plus : Option ℕ → Option ℕ → Option ℕ
plus acc none = acc
plus acc (some x) = some (or_zero acc + x)

-- `r?.cpuMilli` and `r?.memBytes`
abbrev pub cpu_of : Option Resources → Option ℕ
cpu_of none = none
cpu_of (some r) = r.cpu_milli

abbrev pub mem_of : Option Resources → Option ℕ
mem_of none = none
mem_of (some r) = r.mem_bytes

-- The sums of one container name.
pub record Sums : Type 0 where
  pub cpu_milli : ℕ
  pub mem_bytes : ℕ

abbrev pub no_sums : Option Sums → Sums
no_sums none = record { cpu_milli = 0; mem_bytes = 0 }
no_sums (some s) = s

abbrev pub no_bounds : Option SegBounds → SegBounds
no_bounds none = record { req_cpu = none; req_mem = none; lim_cpu = none; lim_mem = none }
no_bounds (some b) = b

-- The local variables of the loop; a sum and its `has…` flag are one optional number.
pub record Tally : Type 0 where
  pub cpu_milli : ℕ
  pub mem_bytes : ℕ
  pub metered : ℕ
  pub req_cpu : Option ℕ
  pub req_mem : Option ℕ
  pub lim_cpu : Option ℕ
  pub lim_mem : Option ℕ
  pub by_name : List (Text × Sums)
  pub bounds_by_name : List (Text × SegBounds)
  pub pod_shares : List PodShare

abbrev pub empty_tally : Tally
empty_tally = record {
  cpu_milli = 0;
  mem_bytes = 0;
  metered = 0;
  req_cpu = none;
  req_mem = none;
  lim_cpu = none;
  lim_mem = none;
  by_name = [];
  bounds_by_name = [];
  pod_shares = [];
}

-- The loop over `u.containers`.
unfoldable pub add_containers : List (Text × Sums) → List ContainerUsage → List (Text × Sums)
add_containers by_name [] = by_name
add_containers by_name (c ∷ cs) =
    let acc = no_sums (lookup c.name by_name) in
    add_containers
      (insert c.name
        (record {
          cpu_milli = acc.cpu_milli + or_zero c.cpu_milli;
          mem_bytes = acc.mem_bytes + or_zero c.mem_bytes;
        })
        by_name)
      cs

-- `cs.init && !cs.sidecar`
abbrev pub is_set : Option Bool → Bool
is_set none = false
is_set (some b) = b

abbrev pub is_regular_init : ContainerStatus → Bool
is_regular_init cs = is_set cs.init && not (is_set cs.sidecar)

-- The loop over `p.containerStatuses`.
unfoldable pub add_bounds : List (Text × SegBounds) → List ContainerStatus → List (Text × SegBounds)
add_bounds bounds [] = bounds
add_bounds bounds (cs ∷ rest) =
    let acc = no_bounds (lookup cs.name bounds) in
    let next =
      if is_regular_init cs
      then bounds
      else (insert cs.name
          (record {
            req_cpu = plus acc.req_cpu cs.cpu_request_milli;
            req_mem = plus acc.req_mem cs.mem_request_bytes;
            lim_cpu = plus acc.lim_cpu cs.cpu_limit_milli;
            lim_mem = plus acc.lim_mem cs.mem_limit_bytes;
          })
          bounds) in
    add_bounds next rest

abbrev pub share_of : KNode → ResourceUsage → PodShare
share_of p u = record {
  name = p.name;
  cpu_milli = or_zero u.cpu_milli;
  mem_bytes = or_zero u.mem_bytes;
  bounds = record {
    req_cpu = cpu_of p.requests;
    req_mem = mem_of p.requests;
    lim_cpu = cpu_of p.limits;
    lim_mem = mem_of p.limits;
  };
}

-- The body of the loop for a metered pod.
unfoldable pub meter : KNode → ResourceUsage → Tally → Tally
meter p u t = record {
  cpu_milli = t.cpu_milli + or_zero u.cpu_milli;
  mem_bytes = t.mem_bytes + or_zero u.mem_bytes;
  metered = suc t.metered;
  req_cpu = plus t.req_cpu (cpu_of p.requests);
  req_mem = plus t.req_mem (mem_of p.requests);
  lim_cpu = plus t.lim_cpu (cpu_of p.limits);
  lim_mem = plus t.lim_mem (mem_of p.limits);
  by_name = add_containers t.by_name (or_empty u.containers);
  bounds_by_name = add_bounds t.bounds_by_name (or_empty p.container_statuses);
  pod_shares = t.pod_shares ++ share_of p u ∷ [];
}

unfoldable pub tally : List (Text × ResourceUsage) → List KNode → Tally → Tally
tally usage [] t = t
tally usage (p ∷ ps) t = elim (lookup p.id usage) [
  | none ↦ tally usage ps t
  | some u ↦ tally usage ps (meter p u t)
]

-- `has… || has… ? { … } : undefined`
abbrev pub bounds_total : Option ℕ → Option ℕ → Option Resources
bounds_total none none = none
bounds_total none (some m) = some (record { cpu_milli = none; mem_bytes = some m; pods = none })
bounds_total (some c) mem = some (record { cpu_milli = some c; mem_bytes = mem; pods = none })

-- The collation `localeCompare` of the host.
module _ (locale_compare : Text → Text → Ordering) where
  abbrev pub container_rows : List (Text × Sums) → List ContainerUsage
  container_rows by_name =
      map
        (λ e. record { name = e.0; cpu_milli = some e.1.cpu_milli; mem_bytes = some e.1.mem_bytes })
        (sort (λ a b. locale_compare a.0 b.0) by_name)

  unfoldable pub summarize : ℕ → Tally → WorkloadUsage
  summarize pod_count t = record {
    usage = record {
      cpu_milli = some t.cpu_milli;
      mem_bytes = some t.mem_bytes;
      containers = if ltb 1 (length t.by_name) then some (container_rows t.by_name) else none;
    };
    requests = bounds_total t.req_cpu t.req_mem;
    limits = bounds_total t.lim_cpu t.lim_mem;
    pod_count = pod_count;
    metered_pods = t.metered;
    pods = sort (λ a b. locale_compare a.name b.name) t.pod_shares;
    container_bounds = if is_nil t.bounds_by_name then none else some t.bounds_by_name;
  }

  abbrev pub summary_of : ℕ → Tally → Option WorkloadUsage
  summary_of pod_count t = if ltb 0 t.metered then some (summarize pod_count t) else none

  unfoldable pub aggregate_workload_usage :
      List KNode → Option (List (Text × ResourceUsage)) → Option WorkloadUsage
  aggregate_workload_usage pods none = none
  aggregate_workload_usage pods (some usage) =
      if is_nil pods then none else summary_of (length pods) (tally usage pods empty_tally)
