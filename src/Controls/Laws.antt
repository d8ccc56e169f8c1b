-- ===== src/Controls/Laws.antt =====
-- How the clicks and keys of web/src/filterToggle.ts and web/src/rovingFocus.ts undo each other.
use kd.Common.{
  forward_back, back_forward, ℕ, ◌+◌, ◌-◌, ◌<◌, ◌≡◌, ap, ◌∙◌, true, false, not, ◌&&◌, Option, none,
  some, List, [], ◌∷◌, Text, text_eq, Eq, nat_eq, ◌==◌, ==_iff, ==_refl, if◌then◌else◌, contains,
  contains-add, contains-remove, length, arith, Option-cases, inl, inr,
}
use native.Mathlib.Nat.{mod-lt}
use kd.Controls.{toggle_in_set, RovingKey, roving_key, roving_target, next_roving_index}

module _ {ℓ} {T : Type ℓ} ⦃e : Eq T⦄ where
  -- A plain click turns its item over and leaves every other item as it is.
  pub contains-toggle :
      (current : List T) (item other : T)
      → contains (toggle_in_set current item false) other
        ≡ (if item == other then not (contains current item) else contains current other)
  unfolding toggle_in_set
  contains-toggle current item other = ground (
    arith,
    contains-add current item other,
    contains-remove current item other,
    ==_iff item other,
  )

  -- A click is undone by a second one: no item changes sides.
  pub contains-toggle_twice :
      (current : List T) (item other : T)
      → contains (toggle_in_set (toggle_in_set current item false) item false) other
        ≡ contains current other
  contains-toggle_twice current item other = ground (
    arith,
    contains-toggle (toggle_in_set current item false) item other,
    contains-toggle current item item,
    contains-toggle current item other,
    ==_iff item other,
    ==_refl item,
  )

  -- A solo click on a set that is not the item alone isolates the item, and a second one clears the
  -- set; from the item alone, a solo click clears and a second one isolates again.
  pub solo_twice :
      (current : List T) (item : T)
      → let is_alone = length current == 1 && contains current item in
        let once = toggle_in_set current item true in
        (once ≡ (if is_alone then [] else item ∷ []))
        × (toggle_in_set once item true ≡ (if is_alone then item ∷ [] else []))
  unfolding toggle_in_set contains
  solo_twice current item = ground (arith, ==_refl item)

target-lt : (k : RovingKey) (current n : ℕ) → 0 < n → roving_target k current n < n
target-lt RovingKey.forward current n h = mod-lt (current + 1) h
target-lt RovingKey.backward current n h = mod-lt (current + n - 1) h
target-lt RovingKey.home current n h = h
target-lt RovingKey.end current n h = omega arith

-- Whatever the key, the index that it moves to is one of the widget's.
pub next_roving_index-lt :
    (key : Text) (current : Option ℕ) (n i : ℕ) → next_roving_index key current n ≡ some i → i < n
unfolding next_roving_index
next_roving_index-lt key none n i h = cc
next_roving_index-lt key (some current) n i h = elim (Option-cases (roving_key key)) [
  | inl e ↦ ground (arith, h, e)
  | inr (k, e) ↦ ground (arith, h, e, target-lt k current n)
]

press :
    (key : Text) (k : RovingKey) (i n : ℕ)
    → roving_key key ≡ some k
    → 0 < n
    → next_roving_index key (some i) n ≡ some (roving_target k i n)
unfolding next_roving_index
press key k i n h l = ground (arith, h, l)

-- From an index of the widget, an arrow back undoes an arrow forward and the other way round, over
-- the ends too, for either orientation of each arrow.
pub roving-inverse :
    (fwd bwd : Text) (i n : ℕ)
    → roving_key fwd ≡ some RovingKey.forward
    → roving_key bwd ≡ some RovingKey.backward
    → i < n
    → (next_roving_index bwd (next_roving_index fwd (some i) n) n ≡ some i)
      × (next_roving_index fwd (next_roving_index bwd (some i) n) n ≡ some i)
roving-inverse fwd bwd i n f b h =
    let l : 0 < n = omega arith in
    (
      ap (λ o. next_roving_index bwd o n) (press fwd RovingKey.forward i n f l)
          ∙ press bwd RovingKey.backward (roving_target RovingKey.forward i n) n b l
          ∙ ap some (forward_back i n h),
      ap (λ o. next_roving_index fwd o n) (press bwd RovingKey.backward i n b l)
          ∙ press fwd RovingKey.forward (roving_target RovingKey.backward i n) n f l
          ∙ ap some (back_forward i n h),
    )
