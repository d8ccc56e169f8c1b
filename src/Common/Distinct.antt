-- ===== src/Common/Distinct.antt =====
-- Lists whose elements have different keys.
use Prim.Native.Nat.{Ordering}
use mathlib.Core.Path.{sym}
use mathlib.Core.Logic.{◌≢◌, inl, inr}
use mathlib.Core.Bool.{Bool}
use mathlib.Core.List.{List, [], ◌∷◌}
use kd.Common.Lists.{All, filter}
use kd.Common.Tests.{Bool-cases}
use kd.Common.Strings.{Text}
use kd.Common.Sort.{sort, place, place_at, place-All, sort-All}

module _ {ℓ} {A : Type ℓ} (key : A → Text) where
  abbrev pub DistinctBy : List A → Type 0
  DistinctBy [] = Unit
  DistinctBy (x ∷ xs) = All (λ y. key y ≢ key x) xs × DistinctBy xs

  filter_others : (P : A → Type 0) (p : A → Bool) (xs : List A) → All P xs → All P (filter p xs)
  filter_others P p [] h = tt
  filter_others P p (x ∷ xs) h = elim (Bool-cases (p x)) [
    | inl k ↦ rw k (h.0, filter_others P p xs h.1)
    | inr k ↦ rw k (filter_others P p xs h.1)
  ]

  pub DistinctBy-filter : (p : A → Bool) (xs : List A) → DistinctBy xs → DistinctBy (filter p xs)
  DistinctBy-filter p [] d = tt
  DistinctBy-filter p (x ∷ xs) d = elim (Bool-cases (p x)) [
    | inl h ↦ rw h (filter_others _ p xs d.0, DistinctBy-filter p xs d.1)
    | inr h ↦ rw h (DistinctBy-filter p xs d.1)
  ]

  module _ (cmp : A → A → Ordering) where
    DistinctBy-place_at :
        (o : Ordering) (x y : A) (ys later : List A)
        → DistinctBy (x ∷ y ∷ ys)
        → DistinctBy later
        → All (λ z. key z ≢ key y) later
        → DistinctBy (place_at o x y ys later)
    unfolding place_at
    DistinctBy-place_at Ordering.gt x y ys later d k l = (l, k)
    DistinctBy-place_at Ordering.lt x y ys later d k l = d
    DistinctBy-place_at Ordering.eq x y ys later d k l = d

    DistinctBy-place : (x : A) (ys : List A) → DistinctBy (x ∷ ys) → DistinctBy (place cmp x ys)
    unfolding place
    DistinctBy-place x [] d = d
    DistinctBy-place x (y ∷ ys) d =
        DistinctBy-place_at (cmp x y) x y ys (place cmp x ys) d
          (DistinctBy-place x ys (d.0.1, d.1.1)) (place-All cmp _ x ys (λ e. d.0.0 (sym e)) d.1.0)

    pub DistinctBy-sort : (xs : List A) → DistinctBy xs → DistinctBy (sort cmp xs)
    unfolding sort
    DistinctBy-sort [] d = tt
    DistinctBy-sort (x ∷ xs) d =
        DistinctBy-place x (sort cmp xs) (sort-All cmp _ xs d.0, DistinctBy-sort xs d.1)
