-- ===== src/Tests/Views.antt =====
-- The canvas, the drawer and the controls, at small inputs.
use kd.Common.{
  text_beq_iff, lookup, ◌≤◌, ◌<◌, ◌≡◌, ◌≢◌, refl, true, false, ◌⊎◌, none, some, List, [], ◌∷◌, map,
  Text, text, text_eq, ◌==◌, All, filter, length, get_elem?, join_unit, lower_unit, Ordering, arith,
  contains, sort, place, place_at,
}
use kd.Types.{Health, KNode, ResourceUsage, health_eq, rel_eq}
use kd.Health.{health_severity}
use kd.Usage.{WorkloadUsage, aggregate_workload_usage}
use kd.Usage.Report.{is_metered, AddsUp, aggregate_lem}
use kd.Collapse.{split_for_fold}
use kd.Collapse.Expanding.{Expands, split_for_fold-Expands}
use kd.Nav.{nav_order, ordered_for_nav}
use kd.Names.{names_from, prefix_parent_names}
use kd.Names.Parents.{IsParent, prefix_parent_names_lem}
use kd.Tests.{web, pod, config, owns, by_length}

abbrev healths : List Health
healths = Health.healthy ∷ Health.unknown ∷ Health.degraded ∷ []

abbrev usage : List (Text × ResourceUsage)
usage = (text "u2", record { cpu_milli = some 250; mem_bytes = none; containers = none }) ∷ []

aggregate_lem_example :
    let metered = length (filter (is_metered usage) (pod ∷ web ∷ [])) in
    ((metered ≡ 0) × (aggregate_workload_usage by_length (pod ∷ web ∷ []) (some usage) ≡ none))
    ⊎ ((0 < metered)
        × (w : WorkloadUsage) × (aggregate_workload_usage by_length (pod ∷ web ∷ []) (some usage)
            ≡ some w)
        × (w.pod_count ≡ 2)
        × (w.metered_pods ≡ metered)
        × AddsUp w)
aggregate_lem_example = aggregate_lem by_length (pod ∷ web ∷ []) usage

abbrev crowd : List KNode
crowd = web ∷ pod ∷ config ∷ pod ∷ web ∷ config ∷ []

abbrev by_name : KNode → KNode → Ordering
by_name a b = by_length a.name b.name

split_for_fold-Expands_example :
    Expands
      (split_for_fold by_name crowd false (some (λ n. n.health == Health.degraded)))
      (split_for_fold by_name crowd true (some (λ n. n.health == Health.degraded)))
      crowd
split_for_fold-Expands_example =
    split_for_fold-Expands by_name crowd (some (λ n. n.health == Health.degraded))

first_in_order : get_elem? (ordered_for_nav by_length by_length (web ∷ pod ∷ [])) 0 ≡ some pod
unfolding ordered_for_nav sort place place_at nav_order health_severity
first_in_order = refl

prefix_parent_names_lem_example :
    (p : Text) × (lookup (text "u2") (prefix_parent_names (web ∷ pod ∷ []) (owns ∷ [])) ≡ some p)
    × (length (text "web") ≤ length p)
    × IsParent (names_from (web ∷ pod ∷ []) []) (owns ∷ []) (text "u2") p
unfolding lookup names_from kd.Common.insert
prefix_parent_names_lem_example =
    prefix_parent_names_lem (web ∷ pod ∷ []) (owns ∷ []) owns (text "web") (text "web-0") (0, refl)
      refl refl refl
