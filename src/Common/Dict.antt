-- ===== src/Common/Dict.antt =====
-- `Map`, `Set` and string-keyed objects of the source, in insertion order.
use mathlib.Core.Path.{◌≡◌, refl}
use mathlib.Core.Bool.{Bool, false, ◌||◌}
use mathlib.Core.Option.{Option, none, some}
use mathlib.Core.List.{List, [], ◌∷◌, ◌++◌}
use native.Mathlib.Omega.{arith}
use kd.Common.Tests.{Eq, ◌==◌, if◌then◌else◌}

module _ {ℓ κ} {K : Type ℓ} {V : Type κ} ⦃e : Eq K⦄ where
  -- `m.get(key)`, `m[key]`
  unfoldable pub lookup : (key : K) → List (K × V) → Option V
  lookup key [] = none
  lookup key ((k, val) ∷ rest) = if k == key then some val else lookup key rest

  -- `m.set(key, new)`, `m[key] = new`: a key that is there keeps its place.
  unfoldable pub insert : (key : K) (new : V) → List (K × V) → List (K × V)
  insert key new [] = (key, new) ∷ []
  insert key new ((k, old) ∷ rest) =
      if k == key then (key, new) ∷ rest else (k, old) ∷ insert key new rest

  -- `m.delete(key)`, `delete m[key]`
  unfoldable pub erase : (key : K) → List (K × V) → List (K × V)
  erase key [] = []
  erase key ((k, val) ∷ rest) =
      let others = erase key rest in if k == key then others else (k, val) ∷ others

  pub lookup-insert :
      (key other : K) (new : V) (entries : List (K × V))
      → lookup other (insert key new entries)
        ≡ (if key == other then some new else lookup other entries)
  unfolding insert lookup
  lookup-insert key other new [] = refl
  lookup-insert key other new ((k, old) ∷ rest) = ground (
    arith,
    e.same_iff k key,
    e.same_iff k other,
    e.same_iff key other,
    lookup-insert key other new rest,
  )

  pub lookup-erase :
      (key other : K) (entries : List (K × V))
      → lookup other (erase key entries) ≡ (if key == other then none else lookup other entries)
  unfolding lookup erase
  lookup-erase key other [] = ground arith
  lookup-erase key other ((k, val) ∷ rest) = ground (
    arith,
    e.same_iff k key,
    e.same_iff k other,
    e.same_iff key other,
    lookup-erase key other rest,
  )

module _ {ℓ} {K : Type ℓ} ⦃e : Eq K⦄ where
  -- `s.has(k)`, `xs.includes(k)`
  unfoldable pub contains : List K → K → Bool
  contains [] k = false
  contains (j ∷ s) k = j == k || contains s k

  -- `s.add(k)`
  unfoldable pub add : List K → K → List K
  add s k = if contains s k then s else s ++ k ∷ []

  -- `s.delete(k)`
  unfoldable pub remove : List K → K → List K
  remove [] k = []
  remove (j ∷ s) k = let rest = remove s k in if j == k then rest else j ∷ rest

  pub contains-append :
      (s t : List K) (k : K) → contains (s ++ t) k ≡ (contains s k || contains t k)
  unfolding contains
  contains-append [] t k = refl
  contains-append (j ∷ s) t k = ground (arith, contains-append s t k)

  pub contains-add : (s : List K) (k j : K) → contains (add s k) j ≡ (k == j || contains s j)
  unfolding add contains
  contains-add s k j = ground (arith, contains-append s (k ∷ []) j, e.same_iff k j)

  pub contains-remove :
      (s : List K) (k j : K) → contains (remove s k) j ≡ (if k == j then false else contains s j)
  unfolding remove contains
  contains-remove [] k j = ground arith
  contains-remove (i ∷ s) k j =
      ground (arith, contains-remove s k j, e.same_iff i k, e.same_iff k j, e.same_iff i j)
