-- ===== src/Health/Worst.antt =====
-- `worstNonHealthy` (web/src/health.ts) and `worstHealth` (web/src/favicon.ts) give the worst state.
use kd.Common.{
  ℕ, ◌+◌, ◌≤◌, ◌≡◌, ◌≢◌, refl, sym, subst, ◌∙◌, Bool, true, ◌||◌, Option, none, some, List, [], ◌∷◌,
  ◌++◌, append_assoc, append-nil, ltb, ◌==◌, contains, contains-append, All, All-append, All-mono,
  arith, Bool-cases, inl, inr, insert, lookup, lookup-insert, filter,
}
use native.Mathlib.Nat.{le_trans}
use kd.Types.{Health, health_eq, health_beq_iff}
use kd.Health.{
  health_severity, worse, worst_from, worst_non_healthy, count_of, tally, worst_health,
  health_order,
}

-- The worst state of a list: one of its unhealthy states, of the greatest severity; none if all are
-- healthy.
abbrev pub IsWorst : List Health → Option Health → Type 0
IsWorst hs none = All (λ h. h ≡ Health.healthy) hs
IsWorst hs (some w) =
    (contains hs w ≡ true)
    × (w ≢ Health.healthy)
    × All (λ h. health_severity h ≤ health_severity w) hs

worse-IsWorst :
    (seen : List Health) (w : Option Health) (h : Health)
    → IsWorst seen w
    → IsWorst (seen ++ h ∷ []) (worse w h)
unfolding worse contains health_severity
worse-IsWorst seen none Health.healthy p = All-append _ seen _ p (refl, tt)
worse-IsWorst seen none h p = (
  ground (arith, contains-append seen (h ∷ []) h),
  λ e. cc,
  All-append _ seen _ (All-mono seen (λ x e. rw e (omega arith)) p) (omega arith, tt),
)
worse-IsWorst seen (some w) h p = elim (Bool-cases (h == Health.healthy)) [
  | inl well ↦ subst (IsWorst (seen ++ h ∷ [])) {x = some w} (ground arith) (keep (ground arith))
  | inr ill ↦ elim (Bool-cases (ltb (health_severity w) (health_severity h))) [
    | inl worse_h ↦ subst (IsWorst (seen ++ h ∷ [])) {x = some h} (ground arith) (
      ground (arith, contains-append seen (h ∷ []) h),
      λ e. ground arith,
      All-append _ seen _ (All-mono seen (λ x k. le_trans k (ground arith)) p.2) (ground arith, tt),
    )
    | inr better ↦
        subst (IsWorst (seen ++ h ∷ [])) {x = some w} (ground arith) (keep (ground arith))
  ]
]
  where
    keep : health_severity h ≤ health_severity w → IsWorst (seen ++ h ∷ []) (some w)
    keep less =
        (ground (arith, contains-append seen (h ∷ []) w), p.1, All-append _ seen _ p.2 (less, tt))

worst_from-IsWorst :
    (seen : List Health) (w : Option Health) (hs : List Health)
    → IsWorst seen w
    → IsWorst (seen ++ hs) (worst_from w hs)
unfolding worst_from
worst_from-IsWorst seen w [] p = subst (λ l. IsWorst l w) (sym (append-nil seen)) p
worst_from-IsWorst seen w (h ∷ hs) p =
    subst (λ l. IsWorst l (worst_from (worse w h) hs)) (append_assoc seen (h ∷ []) hs)
      (worst_from-IsWorst (seen ++ h ∷ []) (worse w h) hs (worse-IsWorst seen w h p))

-- `worstNonHealthy` gives one of the unhealthy states of the list, of the greatest severity in it; and
-- it gives nothing only where all are healthy.
pub worst_non_healthy-IsWorst : (hs : List Health) → IsWorst hs (worst_non_healthy hs)
unfolding worst_non_healthy
worst_non_healthy-IsWorst hs = worst_from-IsWorst [] none hs tt

All-contains {ℓ} :
    (P : Health → Type ℓ) (hs : List Health) (h : Health) → All P hs → contains hs h ≡ true → P h
unfolding contains
All-contains P [] h all m = cc
All-contains P (x ∷ hs) h all m = elim (Bool-cases (x == h)) [
  | inl same ↦ subst P ((health_beq_iff x h).0 same) all.0
  | inr other ↦ All-contains P hs h all.1 (ground arith)
]

-- The unhealthy states of one list are states of the other.
abbrev pub IllWithin : List Health → List Health → Type 0
IllWithin hs ks = (h : Health) → h ≢ Health.healthy → contains hs h ≡ true → contains ks h ≡ true

severity-injective :
    (v w : Health)
    → health_severity v ≤ health_severity w
    → health_severity w ≤ health_severity v
    → some v ≡ some w
unfolding health_severity
severity-injective v w h k = ground arith

IsWorst-unique :
    (hs ks : List Health) (v w : Option Health)
    → IllWithin hs ks
    → IllWithin ks hs
    → IsWorst hs v
    → IsWorst ks w
    → v ≡ w
IsWorst-unique hs ks none none f g p q = refl
IsWorst-unique hs ks none (some w) f g p q = absurd (q.1 (All-contains _ hs w p (g w q.1 q.0)))
IsWorst-unique hs ks (some v) none f g p q = absurd (p.1 (All-contains _ ks v q (f v p.1 p.0)))
IsWorst-unique hs ks (some v) (some w) f g p q =
    let below : health_severity v ≤ health_severity w = All-contains _ ks v q.2 (f v p.1 p.0) in
    let above : health_severity w ≤ health_severity v = All-contains _ hs w p.2 (g w q.1 q.0) in
    severity-injective v w below above

-- Two lists with the same unhealthy states, in any order and as often as may be, have one worst state.
pub worst_non_healthy_congr :
    (hs ks : List Health)
    → IllWithin hs ks
    → IllWithin ks hs
    → worst_non_healthy hs ≡ worst_non_healthy ks
worst_non_healthy_congr hs ks f g =
    IsWorst-unique hs ks _ _ f g (worst_non_healthy-IsWorst hs) (worst_non_healthy-IsWorst ks)

counted-tally :
    (counts : List (Health × ℕ)) (hs : List Health) (h : Health)
    → ltb 0 (count_of (tally counts hs) h) ≡ (ltb 0 (count_of counts h) || contains hs h)
unfolding tally contains
counted-tally counts [] h = ground arith
counted-tally counts (x ∷ hs) h = ground (
  arith,
  counted-tally (insert x (count_of counts x + 1) counts) hs h,
  lookup-insert x h (count_of counts x + 1) counts,
  health_beq_iff x h,
)

contains-order : (p : Health → Bool) (h : Health) → contains (filter p health_order) h ≡ p h
unfolding contains
contains-order p h = ground arith

-- The favicon's badge, which reads only how often each state occurs, shows the worst state of the list.
pub worst_health-tally : (hs : List Health) → worst_health (tally [] hs) ≡ worst_non_healthy hs
unfolding worst_health lookup
worst_health-tally hs =
    let present = λ (h : Health). ltb 0 (count_of (tally [] hs) h) in
    let same = λ (h : Health). contains-order present h ∙ counted-tally [] hs h in
    worst_non_healthy_congr (filter present health_order) hs (λ h ill m. sym (same h) ∙ m)
      (λ h ill m. same h ∙ m)
