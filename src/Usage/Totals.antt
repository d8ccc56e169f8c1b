-- ===== src/Usage/Totals.antt =====
-- The totals of web/src/usageAggregate.ts are the sums over the pods that are metered.
use kd.Common.{
  ℕ, ◌+◌, ◌≡◌, refl, sym, Option, none, some, List, [], ◌∷◌, ◌++◌, Text, text_eq, length, lookup,
  Ordering, sort, place, place_at, length-append, subst, arith, Option-cases, inl, inr,
}
use kd.Types.{KNode, ResourceUsage}
use kd.Usage.{PodShare, Tally, or_zero, plus, empty_tally, share_of, meter, tally, cpu_of, mem_of}

module _ {ℓ} {A : Type ℓ} where
  -- A sum over a list.
  abbrev pub total : (A → ℕ) → List A → ℕ
  total f [] = 0
  total f (x ∷ xs) = f x + total f xs

  pub total-append : (f : A → ℕ) (xs ys : List A) → total f (xs ++ ys) ≡ total f xs + total f ys
  total-append f [] ys = omega arith
  total-append f (x ∷ xs) ys = omega (arith, total-append f xs ys)

  module _ (cmp : A → A → Ordering) (f : A → ℕ) where
    total-place_at :
        (o : Ordering) (x y : A) (ys later : List A)
        → total f later ≡ f x + total f ys
        → total f (place_at o x y ys later) ≡ f x + (f y + total f ys)
    unfolding place_at
    total-place_at Ordering.gt x y ys later h = omega arith
    total-place_at Ordering.lt x y ys later h = refl
    total-place_at Ordering.eq x y ys later h = refl

    total-place : (x : A) (ys : List A) → total f (place cmp x ys) ≡ f x + total f ys
    unfolding place
    total-place x [] = refl
    total-place x (y ∷ ys) = total-place_at (cmp x y) x y ys (place cmp x ys) (total-place x ys)

    pub total-sort : (xs : List A) → total f (sort cmp xs) ≡ total f xs
    unfolding sort
    total-sort [] = refl
    total-sort (x ∷ xs) = omega (arith, total-place x (sort cmp xs), total-sort xs)

pub length-total {ℓ} : {A : Type ℓ} (xs : List A) → length xs ≡ total (λ _. 1) xs
length-total [] = refl
length-total (x ∷ xs) = omega (arith, length-total xs)

-- The totals of a tally are those of its pod shares.
pub record IsSummed (t : Tally) : Type 0 where
  pub cpu : t.cpu_milli ≡ total (λ (p : PodShare). p.cpu_milli) t.pod_shares
  pub mem : t.mem_bytes ≡ total (λ (p : PodShare). p.mem_bytes) t.pod_shares
  pub metered : t.metered ≡ length t.pod_shares
  pub req_cpu : or_zero t.req_cpu ≡ total (λ (p : PodShare). or_zero p.bounds.req_cpu) t.pod_shares
  pub req_mem : or_zero t.req_mem ≡ total (λ (p : PodShare). or_zero p.bounds.req_mem) t.pod_shares
  pub lim_cpu : or_zero t.lim_cpu ≡ total (λ (p : PodShare). or_zero p.bounds.lim_cpu) t.pod_shares
  pub lim_mem : or_zero t.lim_mem ≡ total (λ (p : PodShare). or_zero p.bounds.lim_mem) t.pod_shares

or_zero-plus : (a b : Option ℕ) → or_zero (plus a b) ≡ or_zero a + or_zero b
or_zero-plus a none = omega arith
or_zero-plus a (some b) = refl

total-snoc :
    (f : PodShare → ℕ) (xs : List PodShare) (x : PodShare)
    → total f (xs ++ x ∷ []) ≡ total f xs + f x
total-snoc f xs x = omega (arith, total-append f xs (x ∷ []))

meter-IsSummed : (p : KNode) (u : ResourceUsage) (t : Tally) → IsSummed t → IsSummed (meter p u t)
unfolding meter
meter-IsSummed p u t k = record {
  cpu =
      omega (arith, k.cpu, total-snoc (λ (q : PodShare). q.cpu_milli) t.pod_shares (share_of p u));
  mem =
      omega (arith, k.mem, total-snoc (λ (q : PodShare). q.mem_bytes) t.pod_shares (share_of p u));
  metered = omega (arith, k.metered, length-append t.pod_shares (share_of p u ∷ []));
  req_cpu = omega (
    arith,
    k.req_cpu,
    or_zero-plus t.req_cpu (cpu_of p.requests),
    total-snoc (λ (q : PodShare). or_zero q.bounds.req_cpu) t.pod_shares (share_of p u),
  );
  req_mem = omega (
    arith,
    k.req_mem,
    or_zero-plus t.req_mem (mem_of p.requests),
    total-snoc (λ (q : PodShare). or_zero q.bounds.req_mem) t.pod_shares (share_of p u),
  );
  lim_cpu = omega (
    arith,
    k.lim_cpu,
    or_zero-plus t.lim_cpu (cpu_of p.limits),
    total-snoc (λ (q : PodShare). or_zero q.bounds.lim_cpu) t.pod_shares (share_of p u),
  );
  lim_mem = omega (
    arith,
    k.lim_mem,
    or_zero-plus t.lim_mem (mem_of p.limits),
    total-snoc (λ (q : PodShare). or_zero q.bounds.lim_mem) t.pod_shares (share_of p u),
  );
}

pub tally-none :
    (usage : List (Text × ResourceUsage)) (p : KNode) (ps : List KNode) (t : Tally)
    → lookup p.id usage ≡ none
    → tally usage (p ∷ ps) t ≡ tally usage ps t
unfolding tally
tally-none usage p ps t h = rw (h, tally) refl

pub tally-some :
    (usage : List (Text × ResourceUsage)) (p : KNode) (u : ResourceUsage) (ps : List KNode)
    (t : Tally)
    → lookup p.id usage ≡ some u
    → tally usage (p ∷ ps) t ≡ tally usage ps (meter p u t)
unfolding tally
tally-some usage p u ps t h = rw (h, tally) refl

pub tally-IsSummed :
    (usage : List (Text × ResourceUsage)) (ps : List KNode) (t : Tally)
    → IsSummed t
    → IsSummed (tally usage ps t)
unfolding tally
tally-IsSummed usage [] t k = k
tally-IsSummed usage (p ∷ ps) t k = elim (Option-cases (lookup p.id usage)) [
  | inl h ↦ subst IsSummed (sym (tally-none usage p ps t h)) (tally-IsSummed usage ps t k)
  | inr (u, h) ↦
      subst IsSummed (sym (tally-some usage p u ps t h))
        (tally-IsSummed usage ps (meter p u t) (meter-IsSummed p u t k))
]

pub empty-IsSummed : IsSummed empty_tally
empty-IsSummed = record {
  cpu = refl;
  mem = refl;
  metered = refl;
  req_cpu = refl;
  req_mem = refl;
  lim_cpu = refl;
  lim_mem = refl;
}
