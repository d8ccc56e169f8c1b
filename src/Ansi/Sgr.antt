-- ===== src/Ansi/Sgr.antt =====
-- The styles of web/src/ansi.ts: the parameters of an SGR sequence.
use mathlib.Core.Option
use kd.Common.{
  ℕ, zero, suc, ◌+◌, ◌-◌, ◌*◌, ◌/◌, ◌%◌, Bool, true, false, ◌||◌, ◌&&◌, Option, none, some, List,
  [], ◌∷◌, map, Text, text, nat_eq, text_eq, ◌==◌, if◌then◌else◌, leb, ltb, split_unit, is_nil,
  is_digit, all, trim, not, get_elem?,
}

-- What `Number` gives for a parameter: a natural number, another number (its sign, the integer part
-- of its size, and its spelling), or NaN. A parameter holds no letter.
pub data Num : Type 0 where
  nat : ℕ → Num
  odd : Bool → ℕ → Text → Num
  nan : Num

-- A part of `rgb(…)`: a level, another number by its spelling, the grey level
-- 8 + (x - 232) * 10 of such a number, or what is not there.
pub data Channel : Type 0 where
  level : ℕ → Channel
  spelled grey : Text → Channel
  not_a_number undefined : Channel

pub data Color : Type 0 where
  hex : Text → Color
  rgb : Channel → Channel → Channel → Color

-- An absent flag and a flag that is false are told apart, as the object of the source does.
pub record AnsiStyle : Type 0 where
  pub fg : Option Color
  pub bg : Option Color
  pub bold : Option Bool
  pub dim : Option Bool
  pub italic : Option Bool
  pub underline : Option Bool

abbrev pub no_style : AnsiStyle
no_style = record { fg = none; bg = none; bold = none; dim = none; italic = none; underline = none }

abbrev pub ansi16 : List Text
ansi16 =
    text "#3b3b3b"
    ∷ text "#f56565"
    ∷ text "#48bb78"
    ∷ text "#ecc94b"
    ∷ text "#4299e1"
    ∷ text "#b794f4"
    ∷ text "#0bc5ea"
    ∷ text "#d6deea"
    ∷ text "#6b7280"
    ∷ text "#fc8181"
    ∷ text "#9ae6b4"
    ∷ text "#f6e05e"
    ∷ text "#63b3ed"
    ∷ text "#d6bcfa"
    ∷ text "#76e4f7"
    ∷ text "#ffffff"
    ∷ []

abbrev pub cube_steps : List ℕ
cube_steps = 0 ∷ 95 ∷ 135 ∷ 175 ∷ 215 ∷ 255 ∷ []

-- `ANSI16[i]`
unfoldable pub ansi_color : ℕ → Option Color
ansi_color i = Option.map hex (get_elem? ansi16 i)

-- `CUBE_STEPS[i]`
unfoldable pub cube_step : ℕ → Channel
cube_step i = elim (get_elem? cube_steps i) [ none ↦ undefined | some n ↦ level n ]

-- palette256; `none` is undefined, which the table gives at an index that is no integer.
unfoldable pub palette256 : Num → Option Color
palette256 (nat i) =
    if ltb 255 i
    then some (hex (text "#d6deea"))
    else if ltb i 16
    then ansi_color i
    else if ltb i 232
    then some
        (rgb (cube_step ((i - 16) / 36)) (cube_step ((i - 16) / 6 % 6)) (cube_step ((i - 16) % 6)))
    else (let v = level (8 + (i - 232) * 10) in some (rgb v v v))
palette256 (odd negative i s) =
    if negative || leb 255 i
    then some (hex (text "#d6deea"))
    else if ltb i 16
    then none
    else if ltb i 232
    then some (rgb (cube_step ((i - 16) / 36)) (cube_step ((i - 16) / 6 % 6)) undefined)
    else some (rgb (grey s) (grey s) (grey s))
palette256 nan = some (rgb not_a_number not_a_number not_a_number)

abbrev pub channel : Num → Channel
channel (nat n) = level n
channel (odd negative n s) = spelled s
channel nan = not_a_number

-- The value of decimal digits.
unfoldable pub decimal : ℕ → Text → ℕ
decimal acc [] = acc
decimal acc (c ∷ s) = decimal (acc * 10 + (c - b'0')) s

-- The digits of a numeral before and behind its point.
unfoldable pub numeral : Bool → Text → Text → Text → Num
numeral negative whole frac spelling =
    let n = decimal 0 whole in
    let integral = decimal 0 frac == 0 in
    if not (all is_digit whole && all is_digit frac) || is_nil whole && is_nil frac
    then nan
    else if integral && (not negative || n == 0)
    then nat n
    else odd negative n spelling

abbrev pub numeral_parts : Bool → List Text → Text → Num
numeral_parts negative (whole ∷ []) spelling = numeral negative whole [] spelling
numeral_parts negative (whole ∷ frac ∷ []) spelling = numeral negative whole frac spelling
numeral_parts negative _ spelling = nan

abbrev pub numeral_text : Text → Num
numeral_text [] = nat 0
numeral_text (c ∷ s) =
    if c == b'-'
    then numeral_parts true (split_unit b'.' s) (c ∷ s)
    else if c == b'+'
    then numeral_parts false (split_unit b'.' s) s
    else numeral_parts false (split_unit b'.' (c ∷ s)) (c ∷ s)

-- `p === '' ? 0 : Number(p)`
unfoldable pub to_number : Text → Num
to_number p = numeral_text (trim p)

abbrev pub is_num : Num → ℕ → Bool
is_num (nat n) k = n == k
is_num (odd negative n s) k = false
is_num nan k = false

-- `params[i] ?? 0`, and `params[i] === k`
abbrev pub param_or_zero : List Num → ℕ → Num
param_or_zero ps i = elim (get_elem? ps i) [ none ↦ nat 0 | some p ↦ p ]

abbrev pub param_is : List Num → ℕ → ℕ → Bool
param_is ps i k = elim (get_elem? ps i) [ none ↦ false | some p ↦ is_num p k ]

abbrev pub in_range : ℕ → ℕ → ℕ → Bool
in_range lo hi n = leb lo n && leb n hi

abbrev pub set_color : ℕ → Option Color → AnsiStyle → AnsiStyle
set_color p c s = if p == 38 then record s { fg = c } else record s { bg = c }

-- A colour code 38 or 48 with the parameters behind it.
unfoldable pub extended_color : ℕ → List Num → AnsiStyle → AnsiStyle
extended_color p rest s =
    if param_is rest 0 5
    then set_color p (palette256 (param_or_zero rest 1)) s
    else if param_is rest 0 2
    then set_color p
        (some (
          rgb (channel (param_or_zero rest 1)) (channel (param_or_zero rest 2))
            (channel (param_or_zero rest 3))))
        s
    else s

-- How many further parameters such a code uses up.
unfoldable pub extended_skip : List Num → ℕ
extended_skip rest = if param_is rest 0 5 then 2 else if param_is rest 0 2 then 4 else 1

abbrev pub is_extended : Num → Bool
is_extended p = is_num p 38 || is_num p 48

-- The body of the loop of `applyParams` at a natural number other than 0.
unfoldable pub sgr_code : ℕ → List Num → AnsiStyle → AnsiStyle
sgr_code p rest s =
    if p == 1
    then record s { bold = some true }
    else if p == 2
    then record s { dim = some true }
    else if p == 3
    then record s { italic = some true }
    else if p == 4
    then record s { underline = some true }
    else if p == 22
    then record s { bold = some false; dim = some false }
    else if p == 23
    then record s { italic = some false }
    else if p == 24
    then record s { underline = some false }
    else if p == 39
    then record s { fg = none }
    else if p == 49
    then record s { bg = none }
    else if in_range 30 37 p
    then record s { fg = ansi_color (p - 30) }
    else if in_range 40 47 p
    then record s { bg = ansi_color (p - 40) }
    else if in_range 90 97 p
    then record s { fg = ansi_color (p - 90 + 8) }
    else if in_range 100 107 p
    then record s { bg = ansi_color (p - 100 + 8) }
    else if p == 38 || p == 48
    then extended_color p rest s
    else s

-- A number that is no integer finds no entry in the table of colours.
unfoldable pub sgr_step : Num → List Num → AnsiStyle → AnsiStyle
sgr_step nan rest s = no_style
sgr_step (nat p) rest s = if p == 0 then no_style else sgr_code p rest s
sgr_step (odd negative n t) rest s =
    if not negative && (in_range 30 36 n || in_range 90 96 n)
    then record s { fg = none }
    else if not negative && (in_range 40 46 n || in_range 100 106 n)
    then record s { bg = none }
    else s

-- The loop of `applyParams`; the first argument counts the parameters that are still to be skipped.
unfoldable pub sgr_from : ℕ → List Num → AnsiStyle → AnsiStyle
sgr_from skip [] s = s
sgr_from (suc skip) (p ∷ ps) s = sgr_from skip ps s
sgr_from zero (p ∷ ps) s =
    sgr_from (if is_extended p then extended_skip ps else 0) ps (sgr_step p ps s)

unfoldable pub apply_params : AnsiStyle → Text → AnsiStyle
apply_params prev body =
    if is_nil body || body == text "0"
    then no_style
    else sgr_from 0 (map to_number (split_unit b';' body)) prev
