-- ===== src/Ansi.antt =====
-- web/src/ansi.ts: log lines with ANSI escape codes, cut into styled segments.
pub mod Sgr
pub mod Segments
use kd.Common.{
  ℕ, zero, suc, ◌+◌, ◌-◌, ◌≡◌, refl, Bool, true, false, ◌||◌, ◌&&◌, Option, none, some, List, [],
  ◌∷◌, ◌++◌, Text, text, nat_eq, text_eq, ◌==◌, if◌then◌else◌, leb, length,
}
use kd.Ansi.Sgr.{AnsiStyle, no_style, apply_params}

pub record AnsiSegment : Type 0 where
  pub text : Text
  pub style : AnsiStyle

-- The final byte of a control sequence lies in 0x40..0x7e.
abbrev pub is_final : ℕ → Bool
is_final c = leb 0x40 c && leb c 0x7e

-- The text before the next "\x1b[", and the text behind it, if there is one.
pub record Escape : Type 0 where
  pub before : Text
  pub after : Option Text

unfoldable pub next_escape : Text → Escape
next_escape [] = record { before = []; after = none }
next_escape (c ∷ []) = record { before = c ∷ []; after = none }
next_escape (c ∷ d ∷ s) =
    let later = next_escape (d ∷ s) in
    if c == 0x1b && d == b'['
    then record { before = []; after = some s }
    else record { before = c ∷ later.before; after = later.after }

-- The parameters of a sequence, its final byte if there is one, and the text behind it.
pub record Sequence : Type 0 where
  pub body : Text
  pub final : Option ℕ
  pub rest : Text

unfoldable pub scan_sequence : Text → Sequence
scan_sequence [] = record { body = []; final = none; rest = [] }
scan_sequence (c ∷ s) =
    let later = scan_sequence s in
    if is_final c
    then record { body = []; final = some c; rest = s }
    else record { body = c ∷ later.body; final = later.final; rest = later.rest }

abbrev pub segment : Text → AnsiStyle → List AnsiSegment
segment [] style = []
segment (c ∷ s) style = record { text = c ∷ s; style = style } ∷ []

-- Only `m` ends a sequence that sets the style.
unfoldable pub next_style : AnsiStyle → Sequence → AnsiStyle
next_style style sq = elim sq.final [
  | none ↦ style
  | some c ↦ if c == b'm' then apply_params style sq.body else style
]

-- The loop of `parseAnsi`, on what is left of the input; `none` means that the fuel ran out.
unfoldable pub parse_from : ℕ → AnsiStyle → Text → Option (List AnsiSegment)
parse_from fuel style [] = some []
parse_from zero style (c ∷ s) = none
parse_from (suc fuel) style (c ∷ s) =
    let next = next_escape (c ∷ s) in
    elim next.after [
      | none ↦ some (segment next.before style)
      | some behind ↦
          let sq = scan_sequence behind in
          elim (parse_from fuel (next_style style sq) sq.rest) [
            | none ↦ none
            | some segs ↦ some (segment next.before style ++ segs)
          ]
    ]

unfoldable pub parse_ansi : Text → Option (List AnsiSegment)
parse_ansi input = parse_from (length input) no_style input

-- hasAnsi
unfoldable pub has_ansi : Text → Bool
has_ansi input = elim (next_escape input).after [ none ↦ false | some _ ↦ true ]
