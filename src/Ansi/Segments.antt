-- ===== src/Ansi/Segments.antt =====
-- What `parseAnsi` (web/src/ansi.ts) shows: the line without its control sequences.
use kd.Common.{
  ℕ, zero, suc, ◌≤◌, ◌<◌, ◌≡◌, refl, sym, ap, ◌∙◌, Bool, true, false, ◌&&◌, Option, none, some,
  List, [], ◌∷◌, ◌++◌, append_assoc, append-nil, Text, nat_eq, text_eq, ◌==◌, subst, length, All,
  Bool-cases, Option-cases, inl, inr, arith,
}
use kd.Ansi.Sgr.{AnsiStyle, no_style}
use kd.Ansi.{
  AnsiSegment, is_final, Escape, next_escape, scan_sequence, segment, next_style, parse_from,
  parse_ansi, has_ansi,
}

abbrev pub opens : Text → Bool
opens [] = false
opens (c ∷ []) = false
opens (c ∷ d ∷ s) = c == 0x1b && d == b'['

-- `Strips s t`: the text `t` is `s` without its control sequences, each of which goes from "\x1b["
-- up to the first final byte behind it, or up to the end of the text.
pub data Strips : Text → Text → Type 0 where
  end : Strips [] []
  keep : {s t : Text} (c : ℕ) → opens (c ∷ s) ≡ false → Strips s t → Strips (c ∷ s) (c ∷ t)
  sequence :
      {s t : Text} (body rest : Text) (f : ℕ)
      → All (λ c. is_final c ≡ false) body
      → is_final f ≡ true
      → Strips rest t
      → s ≡ body ++ f ∷ rest
      → Strips (0x1b ∷ b'[' ∷ s) t
  unfinished : (body : Text) → All (λ c. is_final c ≡ false) body → Strips (0x1b ∷ b'[' ∷ body) []

abbrev pub shown : List AnsiSegment → Text
shown [] = []
shown (x ∷ xs) = x.text ++ shown xs

shown-append : (a b : List AnsiSegment) → shown (a ++ b) ≡ shown a ++ shown b
shown-append [] b = refl
shown-append (t ∷ ts) b = rw (shown-append ts b) (sym (append_assoc t.text (shown ts) (shown b)))

shown-segment : (s : Text) (style : AnsiStyle) → shown (segment s style) ≡ s
shown-segment [] style = refl
shown-segment (c ∷ s) style = append-nil _

-- The text that an escape was found in.
abbrev rejoined : Escape → Text
rejoined e = elim e.after [ none ↦ e.before | some s ↦ e.before ++ 0x1b ∷ b'[' ∷ s ]

-- What follows the plain text at the front decides the rest.
abbrev Follows : Option Text → Text → Type 0
Follows none t = t ≡ []
Follows (some s) t = Strips (0x1b ∷ b'[' ∷ s) t

next_escape-Strips :
    (s t : Text) → Follows (next_escape s).after t → Strips s ((next_escape s).before ++ t)
unfolding next_escape
next_escape-Strips [] t h = subst (Strips []) (sym h) end
next_escape-Strips (c ∷ []) t h = subst (λ x. Strips (c ∷ []) (c ∷ x)) (sym h) (keep c refl end)
next_escape-Strips (c ∷ d ∷ s) t h = elim (Bool-cases (c == 0x1b && d == b'[')) [
  | inl hit ↦ rw hit (
      let same : 0x1b ∷ b'[' ∷ s ≡ c ∷ d ∷ s = ground arith in
      subst (λ x. Strips x t) same (rw hit at h))
  | inr miss ↦ rw miss (keep c miss (next_escape-Strips (d ∷ s) t (rw miss at h)))
]

next_escape-shorter :
    (s behind : Text) → (next_escape s).after ≡ some behind → length behind < length s
unfolding next_escape
next_escape-shorter [] behind h = cc
next_escape-shorter (c ∷ []) behind h = cc
next_escape-shorter (c ∷ d ∷ s) behind h = ground (arith, next_escape-shorter (d ∷ s) behind)

scan_sequence-shorter : (s : Text) → length (scan_sequence s).rest ≤ length s
unfolding scan_sequence
scan_sequence-shorter [] = omega arith
scan_sequence-shorter (c ∷ s) = ground (arith, scan_sequence-shorter s)

-- The scan stops at the first final byte.
scan_sequence-final :
    (s : Text) (f : ℕ)
    → (scan_sequence s).final ≡ some f
    → All (λ c. is_final c ≡ false) (scan_sequence s).body
      × (is_final f ≡ true)
      × (s ≡ (scan_sequence s).body ++ f ∷ (scan_sequence s).rest)
unfolding scan_sequence
scan_sequence-final [] f h = cc
scan_sequence-final (c ∷ s) f h = ground (arith, scan_sequence-final s f)

scan_sequence-open :
    (s : Text)
    → (scan_sequence s).final ≡ none
    → All (λ c. is_final c ≡ false) s × ((scan_sequence s).rest ≡ [])
unfolding scan_sequence
scan_sequence-open [] h = (tt, refl)
scan_sequence-open (c ∷ s) h = ground (arith, scan_sequence-open s)

Strips-nil : {s t : Text} → Strips s t → s ≡ [] → t ≡ []
Strips-nil end e = refl
Strips-nil (keep c h k) e = cc
Strips-nil (sequence body rest f h k l m) e = cc
Strips-nil (unfinished body h) e = cc

-- What is left to read of a sequence's text is shown behind it.
after-Strips : (s t : Text) → Strips (scan_sequence s).rest t → Strips (0x1b ∷ b'[' ∷ s) t
after-Strips s t h = elim (Option-cases (scan_sequence s).final) [
  | inr (f, e) ↦
      let (body, final, whole) = scan_sequence-final s f e in
      sequence (scan_sequence s).body (scan_sequence s).rest f body final h whole
  | inl e ↦
      let (body, nothing) = scan_sequence-open s e in
      subst (Strips (0x1b ∷ b'[' ∷ s)) (sym (Strips-nil h nothing)) (unfinished s body)
]

parse_from-Strips :
    (fuel : ℕ) (style : AnsiStyle) (s : Text)
    → length s ≤ fuel
    → (segs : List AnsiSegment) × (parse_from fuel style s ≡ some segs) × Strips s (shown segs)
unfolding parse_from
parse_from-Strips fuel style [] h = ([], refl, end)
parse_from-Strips zero style (c ∷ s) h = absurd (omega arith)
parse_from-Strips (suc fuel) style (c ∷ s) h = elim (Option-cases (next_escape (c ∷ s)).after) [
  | inl none_left ↦ (
    segment (next_escape (c ∷ s)).before style,
    ground arith,
    subst (Strips (c ∷ s)) (append-nil _ ∙ sym (shown-segment (next_escape (c ∷ s)).before style))
        (next_escape-Strips (c ∷ s) [] (subst (λ o. Follows o []) (sym none_left) refl)),
  )
  | inr (behind, e) ↦
      let sq = scan_sequence behind in
      let less = next_escape-shorter (c ∷ s) behind e in
      let (segs, parsed, strips) =
        parse_from-Strips fuel (next_style style sq) sq.rest
          (omega (arith, scan_sequence-shorter behind)) in
      (
        segment (next_escape (c ∷ s)).before style ++ segs,
        ground arith,
        subst (Strips (c ∷ s))
            (ap (λ x. x ++ shown segs) (sym (shown-segment (next_escape (c ∷ s)).before style))
              ∙ sym (shown-append (segment (next_escape (c ∷ s)).before style) segs))
            (next_escape-Strips (c ∷ s) (shown segs) (
              subst (λ o. Follows o (shown segs)) (sym e)
                (after-Strips behind (shown segs) strips))),
      )
]

-- `parseAnsi` returns for every line, and its segments show the line without its control sequences,
-- colour codes and others, finished or not.
pub parse_ansi-Strips :
    (s : Text) → (segs : List AnsiSegment) × (parse_ansi s ≡ some segs) × Strips s (shown segs)
unfolding parse_ansi
parse_ansi-Strips s = parse_from-Strips (length s) no_style s (omega arith)

next_escape-none : (s : Text) → (next_escape s).after ≡ none → (next_escape s).before ≡ s
unfolding next_escape
next_escape-none [] h = refl
next_escape-none (c ∷ []) h = refl
next_escape-none (c ∷ d ∷ s) h = ground (arith, next_escape-none (d ∷ s))

-- A line in which `hasAnsi` finds no escape is one segment in the default style, or none if empty: so
-- the viewer's fast path shows what `parseAnsi` would.
pub parse_ansi_plain : (s : Text) → has_ansi s ≡ false → parse_ansi s ≡ some (segment s no_style)
unfolding parse_ansi has_ansi parse_from
parse_ansi_plain [] h = refl
parse_ansi_plain (c ∷ s) h = ground (arith, next_escape-none (c ∷ s))
