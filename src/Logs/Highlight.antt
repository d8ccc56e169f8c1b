-- ===== src/Logs/Highlight.antt =====
-- The segments of `splitByMatch` of web/src/logs.ts.
use kd.Common.{
  ℕ, zero, suc, ◌+◌, ◌-◌, ◌≤◌, ◌<◌, ◌≡◌, refl, sym, ap, ◌∙◌, true, false, Option, none, some, List,
  [], ◌∷◌, ◌++◌, append-nil, Text, text_eq, ltb, length, drop, take-append-drop, drop-drop, arith,
  Bool-cases, Option-cases, inl, inr, All,
}
use kd.Logs.{Segment, segment, index_of, index_from, shift, slice, push_match, split_from}

-- The text that the segments show.
unfoldable pub shown_text : List Segment → Text
shown_text [] = []
shown_text (s ∷ ss) = s.text ++ shown_text ss

drop_all : (i : ℕ) (s : Text) → length s ≤ i → drop i s ≡ []
drop_all zero [] h = refl
drop_all zero (c ∷ s) h = absurd (omega arith)
drop_all (suc i) [] h = refl
drop_all (suc i) (c ∷ s) h = drop_all i s (omega arith)

pub shift_le : (i : ℕ) (o : Option ℕ) (k : ℕ) → shift i o ≡ some k → i ≤ k
shift_le i none k h = cc
shift_le i (some j) k h = let e : i + j ≡ k = ground (arith, h) in omega arith

slice-drop : (a b : ℕ) (s : Text) → a ≤ b → slice a b s ++ drop b s ≡ drop a s
slice-drop a b s h =
    let e : a + (b - a) ≡ b = omega arith in
    ap (λ (k : ℕ). slice a b s ++ drop k s) (sym e)
    ∙ ap (λ t. slice a b s ++ t) (sym (drop-drop a (b - a) s))
    ∙ take-append-drop (b - a) (drop a s)

push_match-shown :
    (line : Text) (n i idx : ℕ) (rest : List Segment)
    → i ≤ idx
    → shown_text rest ≡ drop (idx + n) line
    → shown_text (push_match line n i idx rest) ≡ drop i line
unfolding shown_text
push_match-shown line n i idx rest h r =
    let hit : slice idx (idx + n) line ++ shown_text rest ≡ drop idx line =
      ap (λ t. slice idx (idx + n) line ++ t) r ∙ slice-drop idx (idx + n) line (omega arith) in
    elim (Bool-cases (ltb i idx)) [
      | inl l ↦ rw l (ap (λ t. slice i idx line ++ t) hit ∙ slice-drop i idx line h)
      | inr g ↦ let e : idx ≡ i = ground (arith, h, g) in rw g (hit ∙ ap (λ (k : ℕ). drop k line) e)
    ]

push_match-All :
    (P : Segment → Type 0) (line : Text) (n i idx : ℕ) (rest : List Segment)
    → P (segment (slice i idx line) false)
    → P (segment (slice idx (idx + n) line) true)
    → All P rest
    → All P (push_match line n i idx rest)
push_match-All P line n i idx rest plain hit h = elim (Bool-cases (ltb i idx)) [
  | inl l ↦ rw l (plain, (hit, h))
  | inr g ↦ rw g (hit, h)
]

-- What a run of the loop gives: segments that show the rest of the line, each of which has a
-- property that all hits of the search have, and what stands before a hit or behind the last one.
abbrev pub Splits : (P : Segment → Type 0) (fuel : ℕ) (line hay needle : Text) (n i : ℕ) → Type 0
Splits P fuel line hay needle n i =
    (ss : List Segment) × (split_from fuel line hay needle n i ≡ some ss)
    × (shown_text ss ≡ drop i line)
    × All P ss

split_from_end :
    (P : Segment → Type 0) (fuel : ℕ) (line hay needle : Text) (n i : ℕ)
    → length line ≤ i
    → Splits P fuel line hay needle n i
unfolding split_from shown_text
split_from_end P zero line hay needle n i h = ([], ground (arith, h), sym (drop_all i line h), tt)
split_from_end P (suc fuel) line hay needle n i h =
    ([], ground (arith, h), sym (drop_all i line h), tt)

split_from_rest :
    (fuel : ℕ) (line hay needle : Text) (n i : ℕ)
    → i < length line
    → index_from needle hay i ≡ none
    → split_from (suc fuel) line hay needle n i ≡ some (segment (drop i line) false ∷ [])
unfolding split_from
split_from_rest fuel line hay needle n i h k = ground (arith, h, k)

split_from_hit :
    (fuel : ℕ) (line hay needle : Text) (n i idx : ℕ) (rest : List Segment)
    → i < length line
    → index_from needle hay i ≡ some idx
    → split_from fuel line hay needle n (idx + n) ≡ some rest
    → split_from (suc fuel) line hay needle n i ≡ some (push_match line n i idx rest)
unfolding split_from
split_from_hit fuel line hay needle n i idx rest h k r =
    let t : ltb i (length line) ≡ true = ground (arith, h) in rw t (rw k (rw r refl))

module _ (P : Segment → Type 0) (line hay needle : Text) (n : ℕ)
    (plain : (i idx : ℕ)
      → index_from needle hay i ≡ some idx
      → P (segment (slice i idx line) false))
    (last : (i : ℕ) → index_from needle hay i ≡ none → P (segment (drop i line) false))
    (hit : (i idx : ℕ)
      → index_from needle hay i ≡ some idx
      → P (segment (slice idx (idx + n) line) true)) where
  pub split_from-Splits :
      (fuel i : ℕ) → 0 < n → length line ≤ fuel + i → Splits P fuel line hay needle n i
  unfolding shown_text
  split_from-Splits zero i p h = split_from_end P zero line hay needle n i (omega arith)
  split_from-Splits (suc fuel) i p h = elim (Bool-cases (ltb i (length line))) [
    | inr g ↦ split_from_end P (suc fuel) line hay needle n i (ground (arith, g))
    | inl l ↦
        let lt : i < length line = ground (arith, l) in
        (elim (Option-cases (index_from needle hay i)) [
          | inl k ↦ (
            segment (drop i line) false ∷ [],
            split_from_rest fuel line hay needle n i lt k,
            append-nil (drop i line),
            (last i k, tt),
          )
          | inr (idx, k) ↦
              let le : i ≤ idx = shift_le i (index_of needle (drop i hay)) idx k in
              let (rest, r, shown, all) = split_from-Splits fuel (idx + n) p (omega arith) in
              (
                push_match line n i idx rest,
                split_from_hit fuel line hay needle n i idx rest lt k r,
                push_match-shown line n i idx rest le shown,
                push_match-All P line n i idx rest (plain i idx k) (hit i idx k) all,
              )
        ])
  ]
