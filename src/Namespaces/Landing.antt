-- ===== src/Namespaces/Landing.antt =====
-- Where web/src/ns.ts lands: the most troubled namespace, and the cycle through the troubled ones.
use Prim.Native.Nat.{compare}
use kd.Common.{
  Occurs, Occurs-All, get_elem?-All, Option-cases, ◌<◌, ◌≡◌, ◌≢◌, refl, subst, Bool, true, not,
  Option, some, List, [], ◌∷◌, Text, text_eq, text_beq_iff, filter, any, Ordering, sort,
  IsComparator, then_by-IsComparator, on-IsComparator, flip-IsComparator, compare-IsComparator,
  sort-IsSorted, sort-All, sort-All_back, IsSorted, All, All-mono, arith, Bool-cases, inl, inr, ◌⊎◌,
}
use kd.Health.{health_severity}
use kd.Namespaces.{
  NamespaceInfo, is_real, non_ready_of, first, compare_namespaces, most_troubled, landing, keep,
  pick, NsPick, is_switching, is_named, decide_namespace_pick,
}

All-filter {ℓ} : {A : Type ℓ} (p : A → Bool) (xs : List A) → All (λ x. p x ≡ true) (filter p xs)
All-filter p [] = tt
All-filter p (x ∷ xs) = elim (Bool-cases (p x)) [
  | inl h ↦ rw h (h, All-filter p xs)
  | inr h ↦ rw h (All-filter p xs)
]

-- What holds of the items that pass a filter, as a statement about all items.
pub filter-All {ℓ κ} :
    {A : Type ℓ} (P : A → Type κ) (p : A → Bool) (xs : List A) → All P xs → All P (filter p xs)
filter-All P p [] h = tt
filter-All P p (x ∷ xs) h = elim (Bool-cases (p x)) [
  | inl e ↦ rw e (h.0, filter-All P p xs h.1)
  | inr e ↦ rw e (filter-All P p xs h.1)
]

All-filter_back {ℓ κ} :
    {A : Type ℓ} (P : A → Type κ) (p : A → Bool) (xs : List A)
    → All P (filter p xs)
    → All (λ x. p x ≡ true → P x) xs
All-filter_back P p [] h = tt
All-filter_back P p (x ∷ xs) h = elim (Bool-cases (p x)) [
  | inl e ↦ let k = rw e at h in (λ _. k.0, All-filter_back P p xs k.1)
  | inr e ↦ (λ t. cc, All-filter_back P p xs (rw e at h))
]

first-All {ℓ κ} :
    {A : Type ℓ} (P : A → Type κ) (xs : List A) (m : A) → first xs ≡ some m → All P xs → P m
first-All P [] m h all = cc
first-All P (x ∷ xs) m h all = let same : x ≡ m = cc in subst P same all.0

named_self : (list : List NamespaceInfo) → All (λ n. any (is_named (some n.name)) list ≡ true) list
named_self [] = tt
named_self (x ∷ xs) =
    (ground (arith, text_beq_iff x.name x.name), All-mono xs (λ n h. ground arith) (named_self xs))

-- The namespace is not behind the other one: its health is worse; or as bad, with more resources that
-- are not ready; or as bad with as many, and its name is not behind the other's.
abbrev pub IsNoLessTroubled : (Text → Text → Ordering) → NamespaceInfo → NamespaceInfo → Type 0
IsNoLessTroubled locale_compare m n =
    (health_severity n.health < health_severity m.health)
    ⊎ ((health_severity n.health ≡ health_severity m.health)
        × ((non_ready_of n < non_ready_of m)
            ⊎ ((non_ready_of n ≡ non_ready_of m) × (locale_compare n.name m.name ≢ Ordering.lt))))

no_less_troubled :
    (locale_compare : Text → Text → Ordering) (m n : NamespaceInfo)
    → compare_namespaces locale_compare n m ≢ Ordering.lt
    → IsNoLessTroubled locale_compare m n
unfolding compare_namespaces
no_less_troubled locale_compare m n h = ground arith

module _ (locale_compare : Text → Text → Ordering) (c : IsComparator locale_compare) where
  pub compare_namespaces-IsComparator : IsComparator (compare_namespaces locale_compare)
  unfolding compare_namespaces
  compare_namespaces-IsComparator =
      then_by-IsComparator _ _
        (flip-IsComparator _ (
          on-IsComparator (λ (n : NamespaceInfo). health_severity n.health) compare
            compare-IsComparator))
        (then_by-IsComparator _ _
          (flip-IsComparator _ (on-IsComparator non_ready_of compare compare-IsComparator))
          (on-IsComparator (λ (n : NamespaceInfo). n.name) locale_compare c))

  abbrev cmp : NamespaceInfo → NamespaceInfo → Ordering
  cmp = compare_namespaces locale_compare

  sorted-first :
      (ys : List NamespaceInfo) (m : NamespaceInfo)
      → IsSorted cmp ys
      → first ys ≡ some m
      → All (λ n. cmp n m ≢ Ordering.lt) ys
  sorted-first [] m s h = tt
  sorted-first (y ∷ ys) m s h =
      let order = compare_namespaces-IsComparator in
      let same : y ≡ m = cc in
      subst (λ (z : NamespaceInfo). All (λ n. cmp n z ≢ Ordering.lt) (y ∷ ys)) same
        (
          λ e. ground (arith, order.flips y y),
          All-mono ys (λ n below e. ground (arith, order.flips y n, below)) s.0,
        )

  -- `mostTroubled` gives a namespace of the list other than the cluster's own, such that no other such
  -- namespace of the list has a worse health, or as bad a health and more resources that are not ready,
  -- or as much of both and a name that comes first in the host's collation, if that is consistent.
  pub most_troubled-first :
      (list : List NamespaceInfo) (m : NamespaceInfo)
      → most_troubled locale_compare list ≡ some m
      → (is_real m ≡ true)
        × Occurs m list
        × All (λ n. is_real n ≡ true → IsNoLessTroubled locale_compare m n) list
  unfolding most_troubled
  most_troubled-first list m h =
      let real = filter is_real list in
      (
        first-All _ (sort cmp real) m h (sort-All cmp _ real (All-filter is_real list)),
        first-All (λ n. Occurs n list) (sort cmp real) m h
            (sort-All cmp (λ n. Occurs n list) real
              (filter-All (λ n. Occurs n list) is_real list (Occurs-All list))),
        All-filter_back _ is_real list (
            All-mono real (λ n below. no_less_troubled locale_compare m n below)
              (sort-All_back cmp _ real (
                sorted-first (sort cmp real) m
                  (sort-IsSorted cmp real compare_namespaces-IsComparator) h))),
      )

  landing-All :
      (P : NamespaceInfo → Type 0) (list : List NamespaceInfo) (m : NamespaceInfo)
      → landing locale_compare list ≡ some m
      → All P list
      → P m
  unfolding landing
  landing-All P list m h all = elim (Option-cases (most_troubled locale_compare list)) [
    | inl e ↦ first-All P list m (ground arith) all
    | inr (n, e) ↦
        let o = (most_troubled-first list m (ground arith)).1 in get_elem?-All P list o.0 m o.1 all
  ]

  landing-some :
      (list : List NamespaceInfo)
      → list ≢ []
      → (m : NamespaceInfo) × (landing locale_compare list ≡ some m)
  unfolding landing
  landing-some [] h = absurd (h refl)
  landing-some (x ∷ xs) h = elim (Option-cases (most_troubled locale_compare (x ∷ xs))) [
    | inl e ↦ (x, ground arith)
    | inr (n, e) ↦ (n, ground arith)
  ]

  -- On a list that is not empty the choice never fails; it names a namespace of the list; and once that
  -- is selected, the choice keeps it, whatever the contexts: the picker does not go on.
  pub decide_namespace_pick-settles :
      (list : List NamespaceInfo) (ns ctx resolved : Option Text)
      → list ≢ []
      → (decide_namespace_pick locale_compare list ns ctx resolved ≡ keep)
        ⊎ ((p : NsPick) × (decide_namespace_pick locale_compare list ns ctx resolved ≡ pick p)
            × ((ctx' resolved' : Option Text)
                → decide_namespace_pick locale_compare list (some p.name) ctx' resolved' ≡ keep)
            × (p.notify ≡ not (is_switching ctx resolved)))
  unfolding decide_namespace_pick
  decide_namespace_pick-settles list ns ctx resolved h =
      elim (Bool-cases (any (is_named ns) list)) [
        | inl there ↦ inl (ground arith)
        | inr gone ↦
            let (m, e) = landing-some list h in
            inr (
              record { name = m.name; notify = not (is_switching ctx resolved) },
              ground arith,
              λ ctx' resolved'.
                  let there = landing-All _ list m e (named_self list) in ground arith,
              refl,
            )
      ]
