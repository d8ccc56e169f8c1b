-- ===== src/Common/Strings.antt =====
-- Strings of the source as lists of UTF-16 code units, with the methods of `String` that it calls.
use Prim.Native.Char.{code}
use Prim.Native.String.{String}
use Prim.Native.Nat.{ℕ, zero, suc, ◌+◌, ◌/◌, ◌%◌}
use mathlib.Core.Path.{◌≡◌, sym, ap, ◌∙◌, refl}
use mathlib.Core.Logic.{◌↔◌, ◌≢◌, inl, inr}
use mathlib.Core.Bool.{Bool, true, false, ◌&&◌, ◌||◌}
use mathlib.Core.List.{List, [], ◌∷◌, ◌++◌, reverse, append_assoc}
use native.Mathlib.Omega.{arith}
use kd.Common.Lists.{All}
use kd.Common.Tests.{Bool-cases, Eq, nat_beq, nat_beq_iff, if◌then◌else◌, leb, ltb}

abbrev pub Text : Type 0
Text = List ℕ

-- The code units of a literal (the literals of the source are ASCII).
abbrev pub text : String → Text
text String.[] = []
text (String.◌∷◌ c s) = code c ∷ text s

abbrev pub text_beq : Text → Text → Bool
text_beq [] [] = true
text_beq [] (_ ∷ _) = false
text_beq (_ ∷ _) [] = false
text_beq (c ∷ s) (d ∷ t) = nat_beq c d && text_beq s t

pub text_beq_iff : (s t : Text) → (text_beq s t ≡ true) ↔ (s ≡ t)
text_beq_iff [] [] = (λ _. refl, λ _. refl)
text_beq_iff [] (d ∷ t) = ((λ h. cc), (λ h. cc))
text_beq_iff (c ∷ s) [] = ((λ h. cc), (λ h. cc))
text_beq_iff (c ∷ s) (d ∷ t) = ground (arith, nat_beq_iff c d, text_beq_iff s t)

instance abbrev pub text_eq : Eq Text
text_eq = record { same = text_beq; same_iff = text_beq_iff }

-- `s.startsWith(p)`
abbrev pub starts_with : Text → Text → Bool
starts_with [] s = true
starts_with (c ∷ p) [] = false
starts_with (c ∷ p) (d ∷ s) = nat_beq c d && starts_with p s

-- `s.includes(p)`
unfoldable pub includes : Text → Text → Bool
includes p [] = starts_with p []
includes p (c ∷ s) = if starts_with p (c ∷ s) then true else includes p s

-- `c.toLowerCase()` on the ASCII letters; the other code units stay.
abbrev pub lower_unit : ℕ → ℕ
lower_unit c = if leb b'A' c && leb c b'Z' then c + 32 else c

abbrev pub is_digit : ℕ → Bool
is_digit c = leb b'0' c && leb c b'9'

-- The white space of `String.prototype.trim`, line ends included.
unfoldable pub is_space : ℕ → Bool
is_space c =
    leb 9 c && leb c 13
    || nat_beq c 32
    || nat_beq c 0xa0
    || nat_beq c 0x1680
    || leb 0x2000 c && leb c 0x200a
    || nat_beq c 0x2028
    || nat_beq c 0x2029
    || nat_beq c 0x202f
    || nat_beq c 0x205f
    || nat_beq c 0x3000
    || nat_beq c 0xfeff

-- `s.trimStart()` and `s.trim()`
unfoldable pub trim_start : Text → Text
trim_start [] = []
trim_start (c ∷ s) = let rest = trim_start s in if is_space c then rest else c ∷ s

unfoldable pub trim : Text → Text
unfolding trim_start
trim s = reverse (trim_start (reverse (trim_start s)))

-- `s.trim() === ''`
unfoldable pub is_blank : Text → Bool
unfolding is_space
is_blank [] = true
is_blank (c ∷ s) = is_space c && is_blank s

-- A code unit put in front of the first part.
abbrev pub extend : ℕ → List Text → List Text
extend c [] = (c ∷ []) ∷ []
extend c (p ∷ ps) = (c ∷ p) ∷ ps

-- `s.split(sep)` at one code unit.
unfoldable pub split_unit : ℕ → Text → List Text
split_unit sep [] = [] ∷ []
split_unit sep (c ∷ s) =
    let rest = split_unit sep s in if nat_beq c sep then [] ∷ rest else extend c rest

-- `parts.join(sep)` with one code unit between the parts.
unfoldable pub join_unit : ℕ → List Text → Text
join_unit sep [] = []
join_unit sep (p ∷ []) = p
join_unit sep (p ∷ q ∷ ps) = p ++ sep ∷ join_unit sep (q ∷ ps)

pub split_unit-ne-nil : (sep : ℕ) (s : Text) → split_unit sep s ≢ []
unfolding split_unit
split_unit-ne-nil sep [] h = cc
split_unit-ne-nil sep (c ∷ s) h = ground (arith, split_unit-ne-nil sep s)

join-extend :
    (sep c : ℕ) (ps : List Text) → ps ≢ [] → join_unit sep (extend c ps) ≡ c ∷ join_unit sep ps
unfolding join_unit
join-extend sep c [] h = absurd (h refl)
join-extend sep c (p ∷ []) h = refl
join-extend sep c (p ∷ q ∷ ps) h = refl

join-nil : (sep : ℕ) (ps : List Text) → ps ≢ [] → join_unit sep ([] ∷ ps) ≡ sep ∷ join_unit sep ps
unfolding join_unit
join-nil sep [] h = absurd (h refl)
join-nil sep (p ∷ ps) h = refl

-- Splitting at a separator and joining again gives the text.
pub join-split : (sep : ℕ) (s : Text) → join_unit sep (split_unit sep s) ≡ s
unfolding split_unit join_unit
join-split sep [] = refl
join-split sep (c ∷ s) = ground (
  arith,
  join-split sep s,
  join-extend sep c (split_unit sep s) (split_unit-ne-nil sep s),
  join-nil sep (split_unit sep s) (split_unit-ne-nil sep s),
  nat_beq_iff c sep,
)

join-cons :
    (sep : ℕ) (p : Text) (ps : List Text)
    → ps ≢ []
    → join_unit sep (p ∷ ps) ≡ p ++ sep ∷ join_unit sep ps
unfolding join_unit
join-cons sep p [] h = absurd (h refl)
join-cons sep p (q ∷ ps) h = refl

snoc-ne-nil {ℓ} : {A : Type ℓ} (xs : List A) (y : A) → xs ++ y ∷ [] ≢ []
snoc-ne-nil [] y h = cc
snoc-ne-nil (x ∷ xs) y h = cc

-- A longer last part makes the joined text longer.
pub join-grow :
    (sep : ℕ) (ps : List Text) (p q : Text)
    → join_unit sep (ps ++ (p ++ q) ∷ []) ≡ join_unit sep (ps ++ p ∷ []) ++ q
unfolding join_unit
join-grow sep [] p q = refl
join-grow sep (r ∷ ps) p q =
    join-cons sep r _ (snoc-ne-nil ps (p ++ q))
    ∙ ap (λ t. r ++ sep ∷ t) (join-grow sep ps p q)
    ∙ sym (append_assoc r (sep ∷ join_unit sep (ps ++ p ∷ [])) q)
    ∙ ap (λ t. t ++ q) (sym (join-cons sep r _ (snoc-ne-nil ps p)))

-- One more part is set off by the separator.
pub join-snoc :
    (sep : ℕ) (ps : List Text) (p q : Text)
    → join_unit sep ((ps ++ p ∷ []) ++ q ∷ []) ≡ join_unit sep (ps ++ p ∷ []) ++ sep ∷ q
unfolding join_unit
join-snoc sep [] p q = refl
join-snoc sep (r ∷ ps) p q =
    join-cons sep r _ (snoc-ne-nil (ps ++ p ∷ []) q)
    ∙ ap (λ t. r ++ sep ∷ t) (join-snoc sep ps p q)
    ∙ sym (append_assoc r (sep ∷ join_unit sep (ps ++ p ∷ [])) (sep ∷ q))
    ∙ ap (λ t. t ++ sep ∷ q) (sym (join-cons sep r _ (snoc-ne-nil ps p)))

-- The separator does not occur in the text.
abbrev pub Lacks : ℕ → Text → Type 0
Lacks sep s = All (λ c. c ≢ sep) s

extend-Lacks :
    (sep c : ℕ) (ps : List Text) → c ≢ sep → All (Lacks sep) ps → All (Lacks sep) (extend c ps)
extend-Lacks sep c [] h k = ((h, tt), tt)
extend-Lacks sep c (p ∷ ps) h k = ((h, k.0), k.1)

pub split_unit-Lacks : (sep : ℕ) (s : Text) → All (Lacks sep) (split_unit sep s)
unfolding split_unit
split_unit-Lacks sep [] = (tt, tt)
split_unit-Lacks sep (c ∷ s) = elim (Bool-cases (nat_beq c sep)) [
  | inl hit ↦ rw hit (tt, split_unit-Lacks sep s)
  | inr miss ↦ rw miss (
      extend-Lacks sep c (split_unit sep s) (ground (arith, nat_beq_iff c sep))
        (split_unit-Lacks sep s))
]

-- `${n}`: the decimal digits in front of `s`, by at most as many rounds as the number has digits.
unfoldable pub digits : ℕ → ℕ → Text → Text
digits zero n s = s
digits (suc fuel) n s =
    let more = digits fuel (n / 10) ((b'0' + n % 10) ∷ s) in
    if ltb n 10 then (b'0' + n) ∷ s else more

unfoldable pub decimal : ℕ → Text
unfolding digits
decimal n = digits (suc n) n []

-- `s < t`: by the first code unit that differs, a prefix first.
unfoldable pub text_ltb : Text → Text → Bool
text_ltb s [] = false
text_ltb [] (d ∷ t) = true
text_ltb (c ∷ s) (d ∷ t) = let rest = text_ltb s t in if nat_beq c d then rest else ltb c d
