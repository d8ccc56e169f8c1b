-- ===== src/Common/Modular.antt =====
-- Indices that go round a list of `n` elements.
use Prim.Native.Nat.{ℕ, zero, suc, ◌+◌, ◌-◌, ◌%◌, ◌<◌}
use mathlib.Core.Path.{◌≡◌, ap, ◌∙◌}
use mathlib.Core.Logic.{inl, inr}
use native.Mathlib.Nat.{mod-eq_of_lt, mod_self, add-mod_right}
use native.Mathlib.Omega.{arith}
use kd.Common.Tests.{Bool-cases, nat_beq}

pub forward_back : (i n : ℕ) → i < n → ((i + 1) % n + n - 1) % n ≡ i
forward_back i n h = elim (Bool-cases (nat_beq (i + 1) n)) [
  | inl e ↦
      let last : i + 1 ≡ n = ground (arith, e) in
      let z : (i + 1) % n ≡ 0 = ap (λ (k : ℕ). k % n) last ∙ mod_self n in
      let r : (i + 1) % n + n - 1 ≡ i = omega arith in ap (λ (k : ℕ). k % n) r ∙ mod-eq_of_lt h
  | inr e ↦
      let s : i + 1 < n = ground (arith, e, h) in
      let z : (i + 1) % n ≡ i + 1 = mod-eq_of_lt s in
      let r : (i + 1) % n + n - 1 ≡ i + n = omega arith in
      ap (λ (k : ℕ). k % n) r ∙ add-mod_right i n ∙ mod-eq_of_lt h
]

pub back_forward : (i n : ℕ) → i < n → ((i + n - 1) % n + 1) % n ≡ i
back_forward zero n h =
    let l : n - 1 < n = omega arith in
    let e : 0 + n - 1 ≡ n - 1 = omega arith in
    let z : (0 + n - 1) % n ≡ n - 1 = ap (λ (k : ℕ). k % n) e ∙ mod-eq_of_lt l in
    let r : (0 + n - 1) % n + 1 ≡ n = omega arith in ap (λ (k : ℕ). k % n) r ∙ mod_self n
back_forward (suc i) n h =
    let l : i < n = omega arith in
    let e : suc i + n - 1 ≡ i + n = omega arith in
    let z : (suc i + n - 1) % n ≡ i =
      ap (λ (k : ℕ). k % n) e ∙ add-mod_right i n ∙ mod-eq_of_lt l in
    let r : (suc i + n - 1) % n + 1 ≡ suc i = omega arith in
    ap (λ (k : ℕ). k % n) r ∙ mod-eq_of_lt h
