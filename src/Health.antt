-- ===== src/Health.antt =====
-- web/src/health.ts, and worstHealth of web/src/favicon.ts: which health wants attention most.
pub mod Worst
use kd.Common.{
  ℕ, Bool, true, false, Option, none, some, List, [], ◌∷◌, if◌then◌else◌, ltb, ◌==◌, ◌+◌, insert,
  lookup, filter,
}
use kd.Types.{Health, health_eq}

unfoldable pub health_severity : Health → ℕ
health_severity Health.degraded = 4
health_severity Health.progressing = 3
health_severity Health.unknown = 2
health_severity Health.suspended = 1
health_severity Health.healthy = 0

-- The body of the loop of `worstNonHealthy`.
unfoldable pub worse : Option Health → Health → Option Health
worse none h = if h == Health.healthy then none else some h
worse (some worst) h =
    if h == Health.healthy
    then some worst
    else if ltb (health_severity worst) (health_severity h)
    then some h
    else some worst

unfoldable pub worst_from : Option Health → List Health → Option Health
worst_from worst [] = worst
worst_from worst (h ∷ hs) = worst_from (worse worst h) hs

unfoldable pub worst_non_healthy : List Health → Option Health
worst_non_healthy hs = worst_from none hs

-- HEALTH_ORDER
abbrev pub health_order : List Health
health_order =
    Health.healthy ∷ Health.progressing ∷ Health.degraded ∷ Health.suspended ∷ Health.unknown ∷ []

-- `counts[h] ?? 0`
abbrev pub count_of : List (Health × ℕ) → Health → ℕ
count_of counts h = elim (lookup h counts) [ none ↦ 0 | some n ↦ n ]

-- `c[h] = (c[h] ?? 0) + 1`, the loop of `counts` in sidebarHealth.ts.
unfoldable pub tally : List (Health × ℕ) → List Health → List (Health × ℕ)
tally counts [] = counts
tally counts (h ∷ hs) = tally (insert h (count_of counts h + 1) counts) hs

-- worstHealth of favicon.ts: an absent count and a count of 0 are both false.
unfoldable pub worst_health : List (Health × ℕ) → Option Health
worst_health counts = worst_non_healthy (filter (λ h. ltb 0 (count_of counts h)) health_order)
