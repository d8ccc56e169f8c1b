-- ===== src/Common/Sort.antt =====
-- `[...xs].sort(cmp)`: a stable sort by a comparator, of which only the sign is read.
use Prim.Native.Nat.{Ordering, compare}
use mathlib.Core.Path.{◌≡◌, refl}
use mathlib.Core.Logic.{◌≢◌}
use mathlib.Core.List.{List, [], ◌∷◌, Perm}
use mathlib.Core.List.Perm
use native.Mathlib.Omega.{arith}
use kd.Common.Lists.{All, All-mono}

-- `a || b` between two comparisons.
abbrev pub then_by : Ordering → Ordering → Ordering
then_by Ordering.lt o = Ordering.lt
then_by Ordering.gt o = Ordering.gt
then_by Ordering.eq o = o

abbrev pub flip : Ordering → Ordering
flip Ordering.lt = Ordering.gt
flip Ordering.gt = Ordering.lt
flip Ordering.eq = Ordering.eq

-- A comparator that `sort` may be given: consistent when its arguments change places, and transitive.
pub record IsComparator {ℓ} {A : Type ℓ} (cmp : A → A → Ordering) : Type ℓ where
  pub flips : (a b : A) → cmp b a ≡ flip (cmp a b)
  pub trans : (a b c : A) → cmp a b ≢ Ordering.gt → cmp b c ≢ Ordering.gt → cmp a c ≢ Ordering.gt

pub compare-IsComparator : IsComparator compare
compare-IsComparator = record { flips = λ a b. ground arith; trans = λ a b c h k e. ground arith }

module _ {ℓ κ} {A : Type ℓ} {B : Type κ} where
  -- Comparing by a key.
  pub on-IsComparator :
      (f : A → B) (cmp : B → B → Ordering)
      → IsComparator cmp
      → IsComparator (λ a b. cmp (f a) (f b))
  on-IsComparator f cmp c = record {
    flips = λ a b. c.flips (f a) (f b);
    trans = λ a b d. c.trans (f a) (f b) (f d);
  }

module _ {ℓ} {A : Type ℓ} where
  pub flip-IsComparator :
      (cmp : A → A → Ordering) → IsComparator cmp → IsComparator (λ a b. cmp b a)
  flip-IsComparator cmp c = record {
    flips = λ a b. c.flips b a;
    trans = λ a b d h k. c.trans d b a k h;
  }

  -- One comparator, and a second one where the first finds no difference.
  pub then_by-IsComparator :
      (f g : A → A → Ordering)
      → IsComparator f
      → IsComparator g
      → IsComparator (λ a b. then_by (f a b) (g a b))
  then_by-IsComparator f g cf cg = record {
    flips = λ a b. ground (arith, cf.flips a b, cg.flips a b);
    trans = λ a b c h k e. ground (
      arith,
      cf.flips a b,
      cf.flips b c,
      cf.flips a c,
      cf.trans a b c,
      cf.trans c a b,
      cf.trans b c a,
      cg.trans a b c,
    );
  }

-- One comparison of the insertion: `x` goes before `y`, or behind it.
unfoldable pub place_at {ℓ} : {A : Type ℓ} → Ordering → A → A → List A → List A → List A
place_at Ordering.gt x y ys later = y ∷ later
place_at Ordering.lt x y ys later = x ∷ y ∷ ys
place_at Ordering.eq x y ys later = x ∷ y ∷ ys

module _ {ℓ} {A : Type ℓ} (cmp : A → A → Ordering) where
  unfoldable pub place : A → List A → List A
  place x [] = x ∷ []
  place x (y ∷ ys) = place_at (cmp x y) x y ys (place x ys)

  unfoldable pub sort : List A → List A
  sort [] = []
  sort (x ∷ xs) = place x (sort xs)

  place_at-perm :
      (o : Ordering) (x y : A) (ys later : List A)
      → Perm later (x ∷ ys)
      → Perm (place_at o x y ys later) (x ∷ y ∷ ys)
  unfolding place_at
  place_at-perm Ordering.gt x y ys later h = Perm.trans (Perm.cons y h) (Perm.swap x y ys)
  place_at-perm Ordering.lt x y ys later h = Perm.refl _
  place_at-perm Ordering.eq x y ys later h = Perm.refl _

  place-perm : (x : A) (ys : List A) → Perm (place x ys) (x ∷ ys)
  unfolding place
  place-perm x [] = Perm.refl _
  place-perm x (y ∷ ys) = place_at-perm (cmp x y) x y ys (place x ys) (place-perm x ys)

  pub sort-perm : (xs : List A) → Perm (sort xs) xs
  unfolding sort
  sort-perm [] = Perm.refl []
  sort-perm (x ∷ xs) = Perm.trans (place-perm x (sort xs)) (Perm.cons x (sort-perm xs))

  place_at-All {κ} :
      (P : A → Type κ) (o : Ordering) (x y : A) (ys later : List A)
      → P x
      → All P (y ∷ ys)
      → All P later
      → All P (place_at o x y ys later)
  unfolding place_at
  place_at-All P Ordering.gt x y ys later p h k = (h.0, k)
  place_at-All P Ordering.lt x y ys later p h k = (p, h)
  place_at-All P Ordering.eq x y ys later p h k = (p, h)

  pub place-All {κ} : (P : A → Type κ) (x : A) (ys : List A) → P x → All P ys → All P (place x ys)
  unfolding place
  place-All P x [] p h = (p, tt)
  place-All P x (y ∷ ys) p h =
      place_at-All P (cmp x y) x y ys (place x ys) p h (place-All P x ys p h.1)

  pub sort-All {κ} : (P : A → Type κ) (xs : List A) → All P xs → All P (sort xs)
  unfolding sort
  sort-All P [] h = tt
  sort-All P (x ∷ xs) h = place-All P x (sort xs) h.0 (sort-All P xs h.1)

  -- What holds of all sorted items holds of all items.
  place-All_inv {κ} :
      (P : A → Type κ) (o : Ordering) (x y : A) (ys later : List A)
      → (All P later → P x × All P ys)
      → All P (place_at o x y ys later)
      → P x × All P (y ∷ ys)
  unfolding place_at
  place-All_inv P Ordering.gt x y ys later f h = let (p, q) = f h.1 in (p, (h.0, q))
  place-All_inv P Ordering.lt x y ys later f h = (h.0, h.1)
  place-All_inv P Ordering.eq x y ys later f h = (h.0, h.1)

  place-All_back {κ} : (P : A → Type κ) (x : A) (ys : List A) → All P (place x ys) → P x × All P ys
  unfolding place
  place-All_back P x [] h = (h.0, tt)
  place-All_back P x (y ∷ ys) h =
      place-All_inv P (cmp x y) x y ys (place x ys) (place-All_back P x ys) h

  pub sort-All_back {κ} : (P : A → Type κ) (xs : List A) → All P (sort xs) → All P xs
  unfolding sort
  sort-All_back P [] h = tt
  sort-All_back P (x ∷ xs) h =
      let (p, q) = place-All_back P x (sort xs) h in (p, sort-All_back P xs q)

  abbrev pub NotAbove : A → A → Type 0
  NotAbove a b = cmp a b ≢ Ordering.gt

  -- Every item is followed by none that ought to stand before it.
  abbrev pub IsSorted : List A → Type 0
  IsSorted [] = Unit
  IsSorted (x ∷ xs) = All (NotAbove x) xs × IsSorted xs

  place_at-IsSorted :
      (o : Ordering) (x y : A) (ys later : List A)
      → IsComparator cmp
      → cmp x y ≡ o
      → IsSorted (y ∷ ys)
      → IsSorted later
      → (o ≡ Ordering.gt → All (NotAbove y) later)
      → IsSorted (place_at o x y ys later)
  unfolding place_at
  place_at-IsSorted Ordering.gt x y ys later c e h k l = (l refl, k)
  place_at-IsSorted Ordering.lt x y ys later c e h k l =
      let below : NotAbove x y = λ q. cc in
      ((below, All-mono ys (λ z q. c.trans x y z below q) h.0), h)
  place_at-IsSorted Ordering.eq x y ys later c e h k l =
      let below : NotAbove x y = λ q. cc in
      ((below, All-mono ys (λ z q. c.trans x y z below q) h.0), h)

  place-IsSorted : (x : A) (ys : List A) → IsComparator cmp → IsSorted ys → IsSorted (place x ys)
  unfolding place
  place-IsSorted x [] c h = (tt, tt)
  place-IsSorted x (y ∷ ys) c h =
      place_at-IsSorted (cmp x y) x y ys (place x ys) c refl h (place-IsSorted x ys c h.1)
        (λ above. place-All (NotAbove y) x ys (λ q. ground (arith, c.flips x y)) h.0)

  pub sort-IsSorted : (xs : List A) → IsComparator cmp → IsSorted (sort xs)
  unfolding sort
  sort-IsSorted [] c = tt
  sort-IsSorted (x ∷ xs) c = place-IsSorted x (sort xs) c (sort-IsSorted xs c)
