-- ===== src/Bars/Ruler.antt =====
-- The bars of one resource are drawn on one scale (web/src/resourceBars.ts).
use kd.Common.{
  Text, text, ℕ, suc, ◌==◌, ◌≡◌, ◌≤◌, ◌<◌, refl, sym, ap, ◌∙◌, subst, Bool, true, false, ◌⊎◌, inl,
  inr, Option, none, some, List, [], ◌∷◌, ◌++◌, map, map-append, filter, if◌then◌else◌, nat_eq,
  is_nil, ltb, ltb→lt, ltb-false→le, max, arith, All, All-mono, All-append, Bool-cases, List-cases,
  Option-cases, Occurs,
}
use kd.UrlState.{CapResource}
use kd.Bars.{
  ResBar, ResGroup, ResBarInputs, Bound, resource_of, usage_of, or_zero, math_max, vals, group_max,
  unit_ref_of, res_label, is_over, scale_bar, scale_bars, bound, bounds_of, ungauged, group_of,
  drawer_resource_bars,
}

-- The positive one of two values, or both.
abbrev pub positive : Option ℕ → List ℕ
positive none = []
positive (some v) = if v == 0 then [] else v ∷ []

-- The bounds that a resource has: capacity and allocatable of a node, limit and request of anything
-- else, or the capacity of the host where it has neither.
unfoldable pub given : ResBarInputs → CapResource → List ℕ
given input res =
    if input.is_node
    then positive (resource_of input.capacity res) ++ positive (resource_of input.allocatable res)
    else let own =
        positive (resource_of input.limit res) ++ positive (resource_of input.request res) in
      if is_nil own then positive (resource_of input.host_capacity res) else own

abbrev pub any_given : List ℕ → Option ℕ → Bool
any_given (v ∷ vs) used = true
any_given [] (some u) = true
any_given [] none = false

-- There is a bound or a usage of the resource.
unfoldable pub is_given : ResBarInputs → CapResource → Bool
is_given input res = any_given (given input res) (usage_of input.usage res)

is_given_lem :
    (input : ResBarInputs) (res : CapResource) (values : List ℕ) (used : Option ℕ)
    → given input res ≡ values
    → usage_of input.usage res ≡ used
    → is_given input res ≡ any_given values used
unfolding is_given
is_given_lem input res values used v u = rw (v, u) refl

-- The value is one of the list, and no other is larger.
pub record IsLongest (longest : ℕ) (values : List ℕ) : Type 0 where
  pub bounds : All (λ v. v ≤ longest) values
  pub member : Occurs longest values

-- A bar with its bound, for a usage, on a scale that ends at `whole`.
pub record IsGauged (used : Option ℕ) (whole : ℕ) (b : ResBar) : Type 0 where
  pub val : ℕ
  pub ceil : b.ceil ≡ some val
  pub fill : b.fill_frac ≡ record { part = or_zero used; whole = whole }
  pub tick : b.bound_frac ≡ some (record { part = val; whole = whole })
  pub filled : or_zero used ≤ whole
  pub positive_val : 1 ≤ val
  pub within : val ≤ whole
  pub over : b.over ≡ true → (u : ℕ) × (used ≡ some u) × (val < u)
  pub not_over : b.over ≡ false → (u : ℕ) → used ≡ some u → u ≤ val

-- One bar for each bound, in order; the unit is chosen by the longest bound, and the scale ends there
-- or at the usage, whichever is longer.
pub record IsRuler (used : Option ℕ) (values : List ℕ) (g : ResGroup) : Type 0 where
  pub whole : ℕ
  pub ceils : map (λ b. b.ceil) g.bars ≡ map some values
  pub gauged : All (IsGauged used whole) g.bars
  pub longest : IsLongest g.unit_ref values
  pub reached : (whole ≡ g.unit_ref) ⊎ ((used ≡ some whole) × (g.unit_ref < whole))

abbrev pub IsShown : ResBarInputs → ResGroup → Type 0
IsShown input g =
    IsRuler (usage_of input.usage g.res) (given input g.res) g
    ⊎ ((given input g.res ≡ [])
        × ((u : ℕ) × (usage_of input.usage g.res ≡ some u) × (g ≡ ungauged g.res u)))

vals-append : (xs ys : List Bound) → vals (xs ++ ys) ≡ vals xs ++ vals ys
vals-append [] ys = refl
vals-append (x ∷ xs) ys = ap (λ vs. x.val ∷ vs) (vals-append xs ys)

vals-bound : (key label : Text) (v : Option ℕ) → vals (bound key label v) ≡ positive v
vals-bound key label none = refl
vals-bound key label (some v) = ground arith

vals_two :
    (k l m n : Text) (v w : Option ℕ) → vals (bound k l v ++ bound m n w) ≡ positive v ++ positive w
vals_two k l m n v w =
    vals-append (bound k l v) (bound m n w) ∙ rw (vals-bound k l v, vals-bound m n w) refl

vals_own :
    (own : List Bound) (key label : Text) (host : Option ℕ)
    → vals (if is_nil own then bound key label host else own)
      ≡ (if is_nil (vals own) then positive host else vals own)
vals_own [] key label host = vals-bound key label host
vals_own (b ∷ own) key label host = refl

vals-bounds_of :
    (input : ResBarInputs) (res : CapResource) → vals (bounds_of input res) ≡ given input res
unfolding bounds_of given
vals-bounds_of input res = elim (Bool-cases input.is_node) [
  | inl node ↦ rw node (
      vals_two (text "cap") (text "Cap") (text "alloc") (text "Alloc")
        (resource_of input.capacity res) (resource_of input.allocatable res))
  | inr other ↦ rw other (
      vals_own
        (bound (text "lim") (text "Lim") (resource_of input.limit res)
          ++ bound (text "req") (text "Req") (resource_of input.request res))
        (text "node") (text "Node") (resource_of input.host_capacity res)
      ∙ ap (λ own. if is_nil own then positive (resource_of input.host_capacity res) else own)
          (vals_two (text "lim") (text "Lim") (text "req") (text "Req")
            (resource_of input.limit res) (resource_of input.request res)))
]

positive-Positive : (v : Option ℕ) → All (λ x. 1 ≤ x) (positive v)
positive-Positive none = tt
positive-Positive (some v) = ground arith

longest_lem : (v : ℕ) (vs : List ℕ) → IsLongest (math_max (v ∷ vs)) (v ∷ vs)
longest_lem v [] = record { bounds = (omega arith, tt); member = (0, ap some (omega arith)) }
longest_lem v (w ∷ ws) =
    let rest = longest_lem w ws in
    let m : ℕ = math_max (w ∷ ws) in
    record {
      bounds = (omega arith, All-mono (w ∷ ws) (λ x h. omega (arith, h)) rest.bounds);
      member = elim (Bool-cases (ltb v m)) [
        | inl less ↦
            let k = ltb→lt v m less in
            let (i, at) = rest.member in (suc i, at ∙ ap some (omega (arith, k)))
        | inr more ↦ let k = ltb-false→le v m more in (0, ap some (omega (arith, k)))
      ];
    }

over_lem :
    (used : Option ℕ) (val : ℕ)
    → (is_over used val ≡ true → (u : ℕ) × (used ≡ some u) × (val < u))
      × (is_over used val ≡ false → (u : ℕ) → used ≡ some u → u ≤ val)
over_lem none val = (λ h. cc, λ h u e. cc)
over_lem (some v) val = (
  λ h. (v, refl, ltb→lt val v h),
  λ h u e. let k = ltb-false→le val v h in let same : v ≡ u = cc in omega (arith, k, same),
)

-- The bars that `scaleBars` gives, with a scale of any length that is enough.
bars-IsGauged :
    (used : Option ℕ) (whole : ℕ) (bounds : List Bound)
    → or_zero used ≤ whole
    → All (λ x. 1 ≤ x) (vals bounds)
    → All (λ v. v ≤ whole) (vals bounds)
    → All (IsGauged used whole) (map (scale_bar used whole) bounds)
bars-IsGauged used whole [] h pos fit = tt
bars-IsGauged used whole (b ∷ bounds) h pos fit = (
  record {
    val = b.val;
    ceil = refl;
    fill = refl;
    tick = refl;
    filled = h;
    positive_val = pos.0;
    within = fit.0;
    over = (over_lem used b.val).0;
    not_over = (over_lem used b.val).1;
  },
  bars-IsGauged used whole bounds h pos.1 fit.1,
)

ceils_lem :
    (used : Option ℕ) (whole : ℕ) (bounds : List Bound)
    → map (λ b. b.ceil) (map (scale_bar used whole) bounds) ≡ map some (vals bounds)
ceils_lem used whole [] = refl
ceils_lem used whole (b ∷ bounds) = ap (λ cs. some b.val ∷ cs) (ceils_lem used whole bounds)

positive_given : (input : ResBarInputs) (res : CapResource) → All (λ x. 1 ≤ x) (given input res)
unfolding given
positive_given input res = elim (Bool-cases input.is_node) [
  | inl node ↦ rw node (two (resource_of input.capacity res) (resource_of input.allocatable res))
  | inr other ↦ rw other (
      pick (positive (resource_of input.limit res) ++ positive (resource_of input.request res))
        (two (resource_of input.limit res) (resource_of input.request res)))
]
  where
    two : (v w : Option ℕ) → All (λ x. 1 ≤ x) (positive v ++ positive w)
    two v w = All-append _ (positive v) _ (positive-Positive v) (positive-Positive w)

    pick :
        (own : List ℕ)
        → All (λ x. 1 ≤ x) own
        → All
            (λ x. 1 ≤ x)
            (if is_nil own then positive (resource_of input.host_capacity res) else own)
    pick [] h = positive-Positive (resource_of input.host_capacity res)
    pick (v ∷ vs) h = h

reaches :
    (used : Option ℕ) (m : ℕ)
    → (max (or_zero used) m ≡ m)
      ⊎ ((used ≡ some (max (or_zero used) m)) × (m < max (or_zero used) m))
reaches none m = inl (omega arith)
reaches (some u) m = elim (Bool-cases (ltb m u)) [
  | inl longer ↦ let k = ltb→lt m u longer in inr (ap some (omega (arith, k)), omega (arith, k))
  | inr within ↦ let k = ltb-false→le m u within in inl (omega (arith, k))
]

abbrev scaled : Option ℕ → List Bound → CapResource → ResGroup
scaled used bounds res = record {
  res = res;
  label = res_label res;
  unit_ref = unit_ref_of bounds;
  bars = scale_bars bounds used;
}

-- The group of a resource that has a bound.
scaled-IsRuler :
    (used : Option ℕ) (b : Bound) (bs : List Bound) (res : CapResource)
    → All (λ x. 1 ≤ x) (vals (b ∷ bs))
    → IsRuler used (vals (b ∷ bs)) (scaled used (b ∷ bs) res)
unfolding scale_bars unit_ref_of group_max
scaled-IsRuler used b bs res pos =
    let longest = longest_lem b.val (vals bs) in
    let m : ℕ = math_max (vals (b ∷ bs)) in
    record {
      whole = max (or_zero used) m;
      ceils = ceils_lem used (max (or_zero used) m) (b ∷ bs);
      gauged =
          bars-IsGauged used (max (or_zero used) m) (b ∷ bs) (omega arith) pos
            (All-mono (vals (b ∷ bs)) (λ v h. omega (arith, h)) longest.bounds);
      longest = longest;
      reached = reaches used m;
    }

group_of-IsShown :
    (input : ResBarInputs) (res : CapResource)
    → (map (λ g. g.res) (group_of input res) ≡ filter (is_given input) (res ∷ []))
      × All (IsShown input) (group_of input res)
unfolding group_of
group_of-IsShown input res = elim (List-cases (bounds_of input res)) [
  | inl unbounded ↦
      let none_given : given input res ≡ [] = sym (vals-bounds_of input res) ∙ ap vals unbounded in
      elim (Option-cases (usage_of input.usage res)) [
        | inl unmeasured ↦
            let no_group = is_given_lem input res [] none none_given unmeasured in
            rw (unbounded, unmeasured) (rw no_group (refl, tt))
        | inr (u, measured) ↦
            let group = is_given_lem input res [] (some u) none_given measured in
            rw (unbounded, measured) (rw group (refl, (inr (none_given, (u, measured, refl)), tt)))
      ]
  | inr (b, bs, bounded) ↦
      let values : given input res ≡ vals (b ∷ bs) =
        sym (vals-bounds_of input res) ∙ ap vals bounded in
      let used = usage_of input.usage res in
      let pos = subst (All (λ x. 1 ≤ x)) values (positive_given input res) in
      let ruler =
        subst (λ vs. IsRuler used vs (scaled used (b ∷ bs) res)) (sym values)
          (scaled-IsRuler used b bs res pos) in
      rw bounded (rw (is_given_lem input res _ _ values refl) refl, (inl ruler, tt))
]

-- A resource has a group just when it has a positive bound or a usage, CPU first. Where it has a bound,
-- its bars are its bounds in order (capacity and allocatable of a node; limit and request of anything
-- else, or the host's capacity where it has neither), drawn on one scale: that ends at the longest
-- bound, which also chooses the unit, or at the usage where that is longer; the fills are equal, each
-- fill and each bound fits; and a bar is over exactly if the usage exceeds its bound. Where it has only
-- a usage, it has the one bar without a scale.
pub drawer_resource_bars-IsShown :
    (input : ResBarInputs)
    → (map (λ g. g.res) (drawer_resource_bars input)
        ≡ filter (is_given input) (CapResource.cpu ∷ CapResource.memory ∷ []))
      × All (IsShown input) (drawer_resource_bars input)
unfolding drawer_resource_bars
drawer_resource_bars-IsShown input =
    let (cpu, cpu_shown) = group_of-IsShown input CapResource.cpu in
    let (mem, mem_shown) = group_of-IsShown input CapResource.memory in
    (
      map-append (λ (g : ResGroup). g.res) (group_of input CapResource.cpu)
            (group_of input CapResource.memory)
          ∙ rw (cpu, mem)
              (elim (Bool-cases (is_given input CapResource.cpu)) [
                | inl yes_cpu ↦ rw yes_cpu refl
                | inr no_cpu ↦ rw no_cpu refl
              ]),
      All-append _ (group_of input CapResource.cpu) _ cpu_shown mem_shown,
    )
