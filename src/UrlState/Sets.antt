-- ===== src/UrlState/Sets.antt =====
-- The sets that a link of web/src/urlState.ts spells as sorted lists.
use kd.Common.{
  ◌≡◌, ◌≢◌, refl, ap, ◌∙◌, Bool, true, false, not, ◌||◌, some, List, [], ◌∷◌, map, Text, text_eq,
  ◌==◌, is_nil, contains, contains-add, add, filter, All, All-mono, Lacks, split_unit, join_unit,
  split-join, arith, ==_iff, ==_refl, sort, sort-All, place, place_at, Ordering, Eq,
}
use kd.Types.{RelCategory, rel_eq}
use kd.Relationships.{rel_name, parse_rels}
use kd.Relationships.Link.{Distinct, IsLowerLetter, parse_rels-join}
use kd.UrlState.{text_set, text_order, sorted_list, rels_text}

module _ {ℓ κ} {A : Type ℓ} {B : Type κ} (f : A → B) (cmp : B → B → Ordering) where
  place_at-map :
      (o : Ordering) (x y : A) (ys later : List A)
      → place_at o (f x) (f y) (map f ys) (map f later) ≡ map f (place_at o x y ys later)
  unfolding place_at
  place_at-map Ordering.lt x y ys later = refl
  place_at-map Ordering.eq x y ys later = refl
  place_at-map Ordering.gt x y ys later = refl

  place-map :
      (x : A) (ys : List A)
      → place cmp (f x) (map f ys) ≡ map f (place (λ a b. cmp (f a) (f b)) x ys)
  unfolding place
  place-map x [] = refl
  place-map x (y ∷ ys) =
      ap (place_at (cmp (f x) (f y)) (f x) (f y) (map f ys)) (place-map x ys)
      ∙ place_at-map (cmp (f x) (f y)) x y ys (place (λ a b. cmp (f a) (f b)) x ys)

  pub sort-map : (xs : List A) → sort cmp (map f xs) ≡ map f (sort (λ a b. cmp (f a) (f b)) xs)
  unfolding sort
  sort-map [] = refl
  sort-map (x ∷ xs) =
      ap (place cmp (f x)) (sort-map xs) ∙ place-map x (sort (λ a b. cmp (f a) (f b)) xs)

module _ {ℓ} {A : Type ℓ} ⦃e : Eq A⦄ (cmp : A → A → Ordering) where
  contains-place_at :
      (o : Ordering) (x y z : A) (ys later : List A)
      → contains later z ≡ (x == z || contains ys z)
      → contains (place_at o x y ys later) z ≡ (x == z || (y == z || contains ys z))
  unfolding place_at contains
  contains-place_at Ordering.lt x y z ys later h = refl
  contains-place_at Ordering.eq x y z ys later h = refl
  contains-place_at Ordering.gt x y z ys later h = ground arith

  contains-place : (x z : A) (ys : List A) → contains (place cmp x ys) z ≡ (x == z || contains ys z)
  unfolding place contains
  contains-place x z [] = refl
  contains-place x z (y ∷ ys) =
      contains-place_at (cmp x y) x y z ys (place cmp x ys) (contains-place x z ys)

  pub contains-sort : (xs : List A) (z : A) → contains (sort cmp xs) z ≡ contains xs z
  unfolding sort contains
  contains-sort [] z = refl
  contains-sort (x ∷ xs) z = ground (arith, contains-place x z (sort cmp xs), contains-sort xs z)

module _ (cmp : RelCategory → RelCategory → Ordering) where
  Distinct-place_at :
      (o : Ordering) (x y : RelCategory) (ys later : List RelCategory)
      → Distinct (x ∷ y ∷ ys)
      → Distinct later
      → contains later y ≡ (x == y || contains ys y)
      → Distinct (place_at o x y ys later)
  unfolding place_at contains
  Distinct-place_at Ordering.lt x y ys later d k h = d
  Distinct-place_at Ordering.eq x y ys later d k h = d
  Distinct-place_at Ordering.gt x y ys later d k h =
      (ground (arith, ==_iff x y, ==_iff y x, d.0, d.1.0), k)

  Distinct-place :
      (x : RelCategory) (ys : List RelCategory) → Distinct (x ∷ ys) → Distinct (place cmp x ys)
  unfolding place contains
  Distinct-place x [] d = d
  Distinct-place x (y ∷ ys) d =
      Distinct-place_at (cmp x y) x y ys (place cmp x ys) d
        (Distinct-place x ys (ground (arith, d.0), d.1.1)) (contains-place cmp x y ys)

  Distinct-sort : (xs : List RelCategory) → Distinct xs → Distinct (sort cmp xs)
  unfolding sort
  Distinct-sort [] d = tt
  Distinct-sort (x ∷ xs) d =
      Distinct-place x (sort cmp xs) (contains-sort cmp xs x ∙ d.0, Distinct-sort xs d.1)

abbrev pub rel_order : RelCategory → RelCategory → Ordering
rel_order a b = text_order (rel_name a) (rel_name b)

-- The stored and the linked list of relationships read back as the sorted list.
pub parse_rels-text :
    (to_lower_case : Text → Text) (rels : List RelCategory)
    → ((s : Text) → All IsLowerLetter s → to_lower_case s ≡ s)
    → Distinct rels
    → parse_rels to_lower_case (some (rels_text rels)) ≡ some (sort rel_order rels)
unfolding sorted_list
parse_rels-text lower rels keeps d =
    ap (λ ps. parse_rels lower (some (join_unit b',' ps))) (sort-map rel_name text_order rels)
    ∙ parse_rels-join lower keeps (sort rel_order rels) (Distinct-sort rel_order rels d)

-- A kind that a link can carry.
abbrev pub IsKind : Text → Type 0
IsKind k = Lacks b',' k × (is_nil k ≡ false)

contains-text_set :
    (xs out : List Text) (z : Text)
    → contains (text_set out xs) z ≡ (contains xs z || contains out z)
unfolding text_set contains
contains-text_set [] out z = refl
contains-text_set (x ∷ xs) out z =
    ground (arith, contains-text_set xs (add out x) z, contains-add out x z)

or_false : (b : Bool) (z : Text) → (b || contains [] z) ≡ b
unfolding contains
or_false true z = refl
or_false false z = refl

keep_filled : (xs : List Text) → All IsKind xs → filter (λ k. not (is_nil k)) xs ≡ xs
keep_filled [] h = refl
keep_filled (x ∷ xs) h = rw h.0.1 (ap (λ l. x ∷ l) (keep_filled xs h.1))

split-sorted : (xs : List Text) → All IsKind xs → xs ≢ [] → split_unit b',' (join_unit b',' xs) ≡ xs
split-sorted [] h k = absurd (k refl)
split-sorted (x ∷ xs) h k = split-join b',' x xs (All-mono (x ∷ xs) (λ y p. p.0) h)

join-filled : (xs : List Text) → All IsKind xs → xs ≢ [] → is_nil (join_unit b',' xs) ≡ false
unfolding join_unit
join-filled [] h k = absurd (k refl)
join-filled ([] ∷ xs) h k = cc
join-filled ((c ∷ x) ∷ []) h k = refl
join-filled ((c ∷ x) ∷ y ∷ xs) h k = refl

sort-filled : (xs : List Text) → xs ≢ [] → sort text_order xs ≢ []
unfolding contains
sort-filled [] h e = h refl
sort-filled (x ∷ xs) h e =
    ground (
      arith,
      contains-sort text_order (x ∷ xs) x,
      ap (λ (l : List Text). contains l x) e,
      ==_refl x,
    )

-- A list of kinds that is not empty is read back as the same set.
pub linked_kinds :
    (xs : List Text)
    → All IsKind xs
    → xs ≢ []
    → (is_nil (sorted_list xs) ≡ false)
      × ((z : Text)
          → contains
              (text_set [] (filter (λ k. not (is_nil k)) (split_unit b',' (sorted_list xs))))
              z
            ≡ contains xs z)
unfolding sorted_list
linked_kinds xs h filled =
    let ys = sort text_order xs in
    let kinds : All IsKind ys = sort-All text_order IsKind xs h in
    let filled_too : ys ≢ [] = sort-filled xs filled in
    (
      join-filled ys kinds filled_too,
      λ z.
          ap (λ l. contains (text_set [] (filter (λ k. not (is_nil k)) l)) z)
            (split-sorted ys kinds filled_too)
          ∙ ap (λ l. contains (text_set [] l) z) (keep_filled ys kinds)
          ∙ contains-text_set ys [] z
          ∙ or_false (contains ys z) z
          ∙ contains-sort text_order xs z,
    )
