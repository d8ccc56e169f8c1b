-- ===== src/Usage/Report.antt =====
-- What `aggregateWorkloadUsage` of web/src/usageAggregate.ts reports.
use kd.Common.{
  ℕ, ◌+◌, ◌<◌, ◌≡◌, refl, sym, ap, ◌∙◌, Bool, true, false, Option, none, some, List, [], ◌∷◌,
  filter, Text, text_eq, length, lookup, Ordering, sort, arith, Option-cases, inl, inr, ◌⊎◌,
  Bool-cases, ltb,
}
use kd.Types.{KNode, ResourceUsage}
use kd.Usage.{
  PodShare, WorkloadUsage, Tally, or_zero, empty_tally, meter, tally, bounds_total, summarize,
  summary_of, aggregate_workload_usage, cpu_of, mem_of,
}
use kd.Usage.Totals.{
  total, total-sort, length-total, IsSummed, tally-IsSummed, empty-IsSummed, tally-none, tally-some,
}

-- `usage[p.id]` is there.
abbrev pub is_metered : List (Text × ResourceUsage) → KNode → Bool
is_metered usage p = elim (lookup p.id usage) [ none ↦ false | some _ ↦ true ]

-- The numbers of a report are the sums over its pods.
pub record AddsUp (w : WorkloadUsage) : Type 0 where
  pub cpu : w.usage.cpu_milli ≡ some (total (λ (p : PodShare). p.cpu_milli) w.pods)
  pub mem : w.usage.mem_bytes ≡ some (total (λ (p : PodShare). p.mem_bytes) w.pods)
  pub metered : w.metered_pods ≡ length w.pods
  pub requests_cpu :
      or_zero (cpu_of w.requests) ≡ total (λ (p : PodShare). or_zero p.bounds.req_cpu) w.pods
  pub requests_mem :
      or_zero (mem_of w.requests) ≡ total (λ (p : PodShare). or_zero p.bounds.req_mem) w.pods
  pub limits_cpu :
      or_zero (cpu_of w.limits) ≡ total (λ (p : PodShare). or_zero p.bounds.lim_cpu) w.pods
  pub limits_mem :
      or_zero (mem_of w.limits) ≡ total (λ (p : PodShare). or_zero p.bounds.lim_mem) w.pods

cpu_of-bounds : (c m : Option ℕ) → cpu_of (bounds_total c m) ≡ c
cpu_of-bounds none none = refl
cpu_of-bounds none (some m) = refl
cpu_of-bounds (some c) m = refl

mem_of-bounds : (c m : Option ℕ) → mem_of (bounds_total c m) ≡ m
mem_of-bounds none none = refl
mem_of-bounds none (some m) = refl
mem_of-bounds (some c) m = refl

tally-metered :
    (usage : List (Text × ResourceUsage)) (ps : List KNode) (t : Tally)
    → (tally usage ps t).metered ≡ t.metered + length (filter (is_metered usage) ps)
unfolding tally meter
tally-metered usage [] t = omega arith
tally-metered usage (p ∷ ps) t = elim (Option-cases (lookup p.id usage)) [
  | inl h ↦
      let e = ap (λ (s : Tally). s.metered) (tally-none usage p ps t h) in
      ground (arith, e, h, tally-metered usage ps t)
  | inr (u, h) ↦
      let e = ap (λ (s : Tally). s.metered) (tally-some usage p u ps t h) in
      ground (arith, e, h, tally-metered usage ps (meter p u t))
]

module _ (locale_compare : Text → Text → Ordering) where
  summarize-AddsUp : (n : ℕ) (t : Tally) → IsSummed t → AddsUp (summarize locale_compare n t)
  unfolding summarize
  summarize-AddsUp n t k =
      let cmp : PodShare → PodShare → Ordering = λ a b. locale_compare a.name b.name in
      record {
        cpu = ap some (k.cpu ∙ sym (total-sort cmp (λ p. p.cpu_milli) t.pod_shares));
        mem = ap some (k.mem ∙ sym (total-sort cmp (λ p. p.mem_bytes) t.pod_shares));
        metered =
            k.metered
            ∙ length-total t.pod_shares
            ∙ sym (total-sort cmp (λ _. 1) t.pod_shares)
            ∙ sym (length-total (sort cmp t.pod_shares));
        requests_cpu =
            ap or_zero (cpu_of-bounds t.req_cpu t.req_mem)
            ∙ k.req_cpu
            ∙ sym (total-sort cmp (λ p. or_zero p.bounds.req_cpu) t.pod_shares);
        requests_mem =
            ap or_zero (mem_of-bounds t.req_cpu t.req_mem)
            ∙ k.req_mem
            ∙ sym (total-sort cmp (λ p. or_zero p.bounds.req_mem) t.pod_shares);
        limits_cpu =
            ap or_zero (cpu_of-bounds t.lim_cpu t.lim_mem)
            ∙ k.lim_cpu
            ∙ sym (total-sort cmp (λ p. or_zero p.bounds.lim_cpu) t.pod_shares);
        limits_mem =
            ap or_zero (mem_of-bounds t.lim_cpu t.lim_mem)
            ∙ k.lim_mem
            ∙ sym (total-sort cmp (λ p. or_zero p.bounds.lim_mem) t.pod_shares);
      }

  summary_none : (n : ℕ) (t : Tally) → t.metered ≡ 0 → summary_of locale_compare n t ≡ none
  summary_none n t h = ground (arith, h)

  summary_some :
      (n : ℕ) (t : Tally)
      → 0 < t.metered
      → summary_of locale_compare n t ≡ some (summarize locale_compare n t)
  summary_some n t h = ground (arith, h)

  counts :
      (n : ℕ) (t : Tally)
      → ((summarize locale_compare n t).pod_count ≡ n)
        × ((summarize locale_compare n t).metered_pods ≡ t.metered)
  unfolding summarize
  counts n t = (refl, refl)

  -- With a usage feed, there is a report just when a pod of the workload is metered; it counts all
  -- pods and the metered ones, and its usage, requests and limits are the sums over its pods.
  pub aggregate_lem :
      (pods : List KNode) (usage : List (Text × ResourceUsage))
      → let metered = length (filter (is_metered usage) pods) in
        ((metered ≡ 0) × (aggregate_workload_usage locale_compare pods (some usage) ≡ none))
        ⊎ ((0 < metered)
            × (w : WorkloadUsage) × (aggregate_workload_usage locale_compare pods (some usage)
                ≡ some w)
            × (w.pod_count ≡ length pods)
            × (w.metered_pods ≡ metered)
            × AddsUp w)
  unfolding aggregate_workload_usage
  aggregate_lem [] usage = inl (refl, refl)
  aggregate_lem (p ∷ ps) usage =
      let t = tally usage (p ∷ ps) empty_tally in
      let m : t.metered ≡ length (filter (is_metered usage) (p ∷ ps)) =
        omega (arith, tally-metered usage (p ∷ ps) empty_tally) in
      elim (Bool-cases (ltb 0 t.metered)) [
        | inr z ↦
            let e : t.metered ≡ 0 = ground (arith, z) in
            inl (sym m ∙ e, summary_none (length (p ∷ ps)) t e)
        | inl h ↦ inr (
          ground (arith, h, m),
          summarize locale_compare (length (p ∷ ps)) t,
          summary_some (length (p ∷ ps)) t (ground (arith, h)),
          (counts (length (p ∷ ps)) t).0,
          (counts (length (p ∷ ps)) t).1 ∙ m,
          summarize-AddsUp (length (p ∷ ps)) t
              (tally-IsSummed usage (p ∷ ps) empty_tally empty-IsSummed),
        )
      ]
