-- ===== src/Logs/Kept.antt =====
-- The filter and the highlighting of a log agree (web/src/logs.ts).
use kd.Common.{
  ℕ, suc, ◌+◌, ◌≡◌, refl, sym, ap, ◌∙◌, Bool, true, false, not, ◌&&◌, Option, none, some, List, [],
  ◌∷◌, Text, text_eq, if◌then◌else◌, ltb, length, filter, any, starts_with, includes, trim, is_nil,
  arith, Bool-cases, Option-cases, inl, inr,
}
use kd.LogResume.{LogEntry}
use kd.Logs.{Segment, segment, shift, index_of, push_match, split_from, fold_case, split_by_match}
use kd.Logs.Hits.{split_by_match-shown, split_query}
use kd.Logs.Level.{LogLevel, parse_log_level, is_hidden, filter_log_lines}

abbrev found : Option ℕ → Bool
found none = false
found (some i) = true

found-shift : (n : ℕ) (o : Option ℕ) → found (shift n o) ≡ found o
found-shift n none = refl
found-shift n (some i) = refl

found-index_of : (p s : Text) → found (index_of p s) ≡ includes p s
unfolding index_of includes
found-index_of p [] = ground arith
found-index_of p (c ∷ s) = elim (Bool-cases (starts_with p (c ∷ s))) [
  | inl here ↦ rw here refl
  | inr later ↦ rw later (found-shift 1 (index_of p s) ∙ found-index_of p s)
]

abbrev pub has_hit : List Segment → Bool
has_hit ss = any (λ s. s.match) ss

push_match-hits :
    (line : Text) (n i idx : ℕ) (rest : List Segment)
    → has_hit (push_match line n i idx rest) ≡ true
push_match-hits line n i idx rest = elim (Bool-cases (ltb i idx)) [
  | inl gap ↦ rw gap refl
  | inr touching ↦ rw touching refl
]

-- The first turn of the loop decides.
split_from-hits :
    (fuel c : ℕ) (l hay needle : Text) (n : ℕ) (ss : List Segment)
    → split_from (suc fuel) (c ∷ l) hay needle n 0 ≡ some ss
    → has_hit ss ≡ includes needle hay
unfolding split_from
split_from-hits fuel c l hay needle n ss h = elim (Option-cases (index_of needle hay)) [
  | inl nowhere ↦
      let e : segment (c ∷ l) false ∷ [] ≡ ss = ground (arith, h, nowhere) in
      ap has_hit (sym e) ∙ (ground (arith, nowhere, found-index_of needle hay))
  | inr (j, at) ↦ elim (Option-cases (split_from fuel (c ∷ l) hay needle n (0 + j + n))) [
    | inl out ↦ ground (arith, h, at, out)
    | inr (rest, more) ↦
        let e : push_match (c ∷ l) n 0 (0 + j) rest ≡ ss = ground (arith, h, at, more) in
        ap has_hit (sym e)
        ∙ push_match-hits (c ∷ l) n 0 (0 + j) rest
        ∙ (ground (arith, at, found-index_of needle hay))
  ]
]

-- The line has a highlighted segment.
abbrev pub is_marked : (Text → Text) → Text → Bool → Text → Bool
is_marked to_lower_case query case_sensitive line =
    elim (split_by_match to_lower_case line query case_sensitive) [
      | none ↦ false
      | some ss ↦ has_hit ss
    ]

starts-filled : (p : Text) → is_nil p ≡ false → starts_with p [] ≡ false
starts-filled [] h = cc
starts-filled (c ∷ p) h = refl

filter_congr :
    {A : Type 0} (p q : A → Bool) (xs : List A) → ((x : A) → p x ≡ q x) → filter p xs ≡ filter q xs
filter_congr p q [] h = refl
filter_congr p q (x ∷ xs) h = ground (arith, h x, filter_congr p q xs h)

searching :
    (blank all : Bool) (xs ys : List LogEntry)
    → blank ≡ false
    → (if blank && all then xs else ys) ≡ ys
searching true all xs ys h = cc
searching false all xs ys h = refl

none_hidden : (line : Text) → is_hidden [] line ≡ false
none_hidden line = elim (Option-cases (parse_log_level line)) [
  | inl unknown ↦ rw (unknown, is_hidden) refl
  | inr (l, known) ↦ rw (known, is_hidden) refl
]

module _ (to_lower_case : Text → Text) (keeps_empty : to_lower_case [] ≡ [])
    (keeps_filled : (s : Text) → is_nil s ≡ false → is_nil (to_lower_case s) ≡ false) where
  folds-empty : (cs : Bool) → fold_case to_lower_case cs [] ≡ []
  folds-empty true = refl
  folds-empty false = keeps_empty

  folds-filled :
      (cs : Bool) (s : Text) → is_nil s ≡ false → is_nil (fold_case to_lower_case cs s) ≡ false
  folds-filled true s h = h
  folds-filled false s h = keeps_filled s h

  is_marked-includes :
      (query : Text) (cs : Bool) (line : Text)
      → is_nil (trim query) ≡ false
      → is_marked to_lower_case query cs line
        ≡ includes (fold_case to_lower_case cs (trim query)) (fold_case to_lower_case cs line)
  unfolding split_from includes
  is_marked-includes query cs [] h =
      ap (λ o. elim o [ none ↦ false | some ss ↦ has_hit ss ])
        (split_query to_lower_case [] query cs h)
      ∙ sym (
          ap (λ t. includes (fold_case to_lower_case cs (trim query)) t) (folds-empty cs)
          ∙ starts-filled (fold_case to_lower_case cs (trim query))
              (folds-filled cs (trim query) h))
  is_marked-includes query cs (c ∷ l) h =
      let (ss, e, _) = split_by_match-shown to_lower_case (c ∷ l) query cs in
      ap (λ o. elim o [ none ↦ false | some ss ↦ has_hit ss ]) e
      ∙ split_from-hits (length l) c l (fold_case to_lower_case cs (c ∷ l))
          (fold_case to_lower_case cs (trim query)) (length (trim query)) ss
          (sym (split_query to_lower_case (c ∷ l) query cs h) ∙ e)

  keeps-marked :
      (query : Text) (cs : Bool) (hidden : List LogLevel) (line : Text)
      → is_nil (trim query) ≡ false
      → (if not (is_nil hidden) && is_hidden hidden line
          then false
          else if is_nil (trim query)
          then true
          else includes (fold_case to_lower_case cs (trim query)) (fold_case to_lower_case cs line))
        ≡ (not (is_hidden hidden line) && is_marked to_lower_case query cs line)
  keeps-marked query cs [] line h =
      rw (h, none_hidden line) (sym (is_marked-includes query cs line h))
  keeps-marked query cs (l ∷ hidden) line h = elim (Bool-cases (is_hidden (l ∷ hidden) line)) [
    | inl off ↦ rw off refl
    | inr on ↦ rw (h, on) (sym (is_marked-includes query cs line h))
  ]

  -- With a query, the viewer keeps exactly the lines whose level, if they have one, is not toggled off,
  -- and in which the highlighting marks a match, if lower-casing leaves the empty text empty and no
  -- other.
  pub filter_log_lines-marked :
      (lines : List LogEntry) (query : Text) (case_sensitive : Bool) (hidden : List LogLevel)
      → is_nil (trim query) ≡ false
      → filter_log_lines to_lower_case lines query case_sensitive hidden
        ≡ filter
            (λ l.
              not (is_hidden hidden l.line) && is_marked to_lower_case query case_sensitive l.line)
            lines
  unfolding filter_log_lines
  filter_log_lines-marked lines query cs hidden h =
      searching (is_nil (trim query)) (is_nil hidden) lines _ h
      ∙ filter_congr _ _ lines (λ l. keeps-marked query cs hidden l.line h)
