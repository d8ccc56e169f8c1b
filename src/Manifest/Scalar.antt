-- ===== src/Manifest/Scalar.antt =====
-- Tokens and scalars of web/src/manifestSyntax.ts, and its regular expressions as scanners.
use mathlib.Core.Option
use kd.Common.{
  ℕ, suc, ◌≡◌, refl, sym, ap, ◌∙◌, Bool, false, not, ◌||◌, ◌&&◌, Option, none, some, List, [], ◌∷◌,
  ◌++◌, Text, nat_eq, text_eq, ◌==◌, if◌then◌else◌, is_nil, is_digit, arith, append_assoc,
  append-nil, length, length-append, ◌<◌,
}

pub data TokType : Type 0 where
  key string number keyword punct plain : TokType

pub record Token : Type 0 where
  pub text : Text
  pub type : TokType

pub data Format : Type 0 where
  yaml json : Format

-- The text that a list of tokens shows.
abbrev pub shown : List Token → Text
shown [] = []
shown (t ∷ ts) = t.text ++ shown ts

pub shown-append : (a b : List Token) → shown (a ++ b) ≡ shown a ++ shown b
shown-append [] b = refl
shown-append (t ∷ ts) b = rw (shown-append ts b) (sym (append_assoc t.text (shown ts) (shown b)))

-- A token, left out if its text is empty (`if (s) out.push(…)`).
abbrev pub unless_empty : Text → TokType → List Token
unless_empty [] type = []
unless_empty (c ∷ s) type = record { text = c ∷ s; type = type } ∷ []

pub shown-unless_empty : (s : Text) (type : TokType) → shown (unless_empty s type) ≡ s
shown-unless_empty [] type = refl
shown-unless_empty (c ∷ s) type = append-nil _

pub record Cut : Type 0 where
  pub taken : Text
  pub rest : Text

-- One more code unit in front of what a scanner took.
abbrev pub grow : ℕ → Cut → Cut
grow c s = record { taken = c ∷ s.taken; rest = s.rest }

-- `\d*`
unfoldable pub digits : Text → Cut
digits [] = record { taken = []; rest = [] }
digits (c ∷ s) =
    let more = grow c (digits s) in if is_digit c then more else record { taken = []; rest = c ∷ s }

abbrev nothing : Text → Cut
nothing s = record { taken = []; rest = s }

-- What a scanner took, and then what the next one takes from the rest.
abbrev pub chain : Cut → (Text → Cut) → Cut
chain a f = record { taken = a.taken ++ (f a.rest).taken; rest = (f a.rest).rest }

-- `(?:\.\d+)?`
unfoldable pub fraction : Text → Cut
fraction [] = nothing []
fraction (c ∷ s) =
    if c == b'.' && not (is_nil (digits s).taken) then grow c (digits s) else nothing (c ∷ s)

-- An optional code unit that passes a test.
unfoldable pub optional : (ℕ → Bool) → Text → Cut
optional p [] = nothing []
optional p (c ∷ s) = if p c then record { taken = c ∷ []; rest = s } else nothing (c ∷ s)

abbrev is_sign : ℕ → Bool
is_sign c = c == b'+' || c == b'-'

-- `[+-]?\d+` without the test that there is a digit
abbrev signed_digits : Text → Cut
signed_digits s = chain (optional is_sign s) digits

-- `(?:[eE][+-]?\d+)?`
unfoldable pub exponent : Text → Cut
exponent [] = nothing []
exponent (c ∷ s) =
    if (c == b'e' || c == b'E') && not (is_nil (digits (optional is_sign s).rest).taken)
    then grow c (signed_digits s)
    else nothing (c ∷ s)

-- `0|[1-9]\d*`
unfoldable pub integer : Text → Option Cut
integer [] = none
integer (c ∷ s) =
    if c == b'0'
    then some (record { taken = c ∷ []; rest = s })
    else if is_digit c
    then some (grow c (digits s))
    else none

-- JSON_NUM_RE at the head of the text. Its parts never need to give back what they took.
unfoldable pub number_prefix : Text → Option Cut
number_prefix s =
    let sign = optional (λ c. c == b'-') s in
    Option.map (λ n. chain (chain (chain sign (λ _. n)) fraction) exponent) (integer sign.rest)

-- `NUM_RE.test(t)`: the number is the whole text.
unfoldable pub is_number : Text → Bool
unfolding number_prefix
is_number t = elim (number_prefix t) [ none ↦ false | some s ↦ is_nil s.rest ]

-- `BLOCK_RE.test(t)`
unfoldable pub is_block_indicator : Text → Bool
is_block_indicator [] = false
is_block_indicator (c ∷ s) = (c == b'|' || c == b'>') && is_nil (signed_digits s).rest

-- leadingSpaces
unfoldable pub leading_spaces : Text → ℕ
leading_spaces [] = 0
leading_spaces (c ∷ s) = let more = suc (leading_spaces s) in if c == b' ' then more else 0

-- A scanner splits the text in front of it.
abbrev pub Splits : Text → Cut → Type 0
Splits s a = a.taken ++ a.rest ≡ s

digits-Splits : (s : Text) → Splits s (digits s)
unfolding digits
digits-Splits [] = refl
digits-Splits (c ∷ s) = ground (arith, digits-Splits s)

fraction-Splits : (s : Text) → Splits s (fraction s)
unfolding fraction
fraction-Splits [] = refl
fraction-Splits (c ∷ s) = ground (arith, digits-Splits s)

optional-Splits : (p : ℕ → Bool) (s : Text) → Splits s (optional p s)
unfolding optional
optional-Splits p [] = refl
optional-Splits p (c ∷ s) = ground arith

chain-Splits :
    (s : Text) (a : Cut) (f : Text → Cut)
    → Splits s a
    → Splits a.rest (f a.rest)
    → Splits s (chain a f)
chain-Splits s a f h k = append_assoc a.taken _ _ ∙ ap (λ r. a.taken ++ r) k ∙ h

exponent-Splits : (s : Text) → Splits s (exponent s)
unfolding exponent
exponent-Splits [] = refl
exponent-Splits (c ∷ s) = ground (
  arith,
  chain-Splits s (optional is_sign s) digits (optional-Splits is_sign s)
      (digits-Splits (optional is_sign s).rest),
)

integer-Splits : (s : Text) (a : Cut) → integer s ≡ some a → Splits s a
unfolding integer
integer-Splits [] a h = cc
integer-Splits (c ∷ s) a h = ground (arith, digits-Splits s)

-- What the number scanner takes and what it leaves make up the text.
pub number_prefix-Splits : (s : Text) (a : Cut) → number_prefix s ≡ some a → Splits s a
unfolding number_prefix
number_prefix-Splits s a h =
    let sign = optional (λ c. c == b'-') s in
    let (n, e, same) = (Option.map-eq-some_iff _ _).0 h in
    rw (← same) (
      chain-Splits s _ exponent
        (chain-Splits s _ fraction
          (chain-Splits s sign (λ _. n) (optional-Splits _ s) (integer-Splits sign.rest n e))
          (fraction-Splits n.rest))
        (exponent-Splits _))

integer_takes : (s : Text) (a : Cut) → integer s ≡ some a → 0 < length a.taken
unfolding integer
integer_takes [] a h = cc
integer_takes (c ∷ s) a h = ground arith

number_prefix_takes : (s : Text) (a : Cut) → number_prefix s ≡ some a → 0 < length a.taken
unfolding number_prefix
number_prefix_takes s a h =
    let sign = optional (λ c. c == b'-') s in
    let (n, e, same) = (Option.map-eq-some_iff _ _).0 h in
    let front = sign.taken ++ n.taken in
    let fr = fraction n.rest in
    rw (← same) (
      omega (
        arith,
        integer_takes sign.rest n e,
        length-append sign.taken n.taken,
        length-append front fr.taken,
        length-append (front ++ fr.taken) (exponent fr.rest).taken,
      ))

pub number_prefix_shortens :
    (s : Text) (a : Cut) → number_prefix s ≡ some a → length a.rest < length s
number_prefix_shortens s a h = omega (
  arith,
  number_prefix_takes s a h,
  ap length (number_prefix-Splits s a h),
  length-append a.taken a.rest,
)
