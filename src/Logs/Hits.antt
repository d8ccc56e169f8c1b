-- ===== src/Logs/Hits.antt =====
-- What `splitByMatch` of web/src/logs.ts highlights.
use mathlib.Core.Path.{fun_ext}
use kd.Common.{
  ℕ, zero, suc, ◌+◌, ◌-◌, ◌<◌, ◌≡◌, refl, sym, ap, ◌∙◌, Bool, true, false, some, none, Option, List,
  [], ◌∷◌, map, append-nil, Text, text_eq, length, take, drop, drop-drop, starts_with, includes,
  trim, is_nil, arith, Bool-cases, Option-cases, inl, inr, ◌⊎◌, subst, nat_beq_iff, All, length-map,
}
use kd.Logs.{
  Segment, segment, index_of, index_from, shift, slice, split_from, fold_case, split_by_match,
}
use kd.Logs.Highlight.{shown_text, split_from-Splits}

starts_with-take : (p s : Text) → starts_with p s ≡ true → take (length p) s ≡ p
starts_with-take [] s h = refl
starts_with-take (c ∷ p) [] h = cc
starts_with-take (c ∷ p) (d ∷ s) h = ground (arith, h, nat_beq_iff c d, starts_with-take p s)

index_of-take :
    (needle hay : Text) (j : ℕ)
    → index_of needle hay ≡ some j
    → take (length needle) (drop j hay) ≡ needle
unfolding index_of
index_of-take [] [] j h = refl
index_of-take (n ∷ needle) [] j h = cc
index_of-take needle (c ∷ hay) j h = elim (Bool-cases (starts_with needle (c ∷ hay))) [
  | inl t ↦
      let e : 0 ≡ j = ground (arith, h, t) in
      ap (λ (k : ℕ). take (length needle) (drop k (c ∷ hay))) (sym e)
      ∙ starts_with-take needle (c ∷ hay) t
  | inr f ↦ (elim (Option-cases (index_of needle hay)) [
    | inl k ↦ ground (arith, h, f, k)
    | inr (i, k) ↦
        let e : suc i ≡ j = ground (arith, h, f, k) in
        ap (λ (l : ℕ). take (length needle) (drop l (c ∷ hay))) (sym e)
        ∙ index_of-take needle hay i k
  ])
]

starts_with-take-false :
    (p s : Text) (n : ℕ) → starts_with p s ≡ false → starts_with p (take n s) ≡ false
starts_with-take-false [] s n h = cc
starts_with-take-false (c ∷ p) s zero h = refl
starts_with-take-false (c ∷ p) [] (suc n) h = refl
starts_with-take-false (c ∷ p) (d ∷ s) (suc n) h = ground (arith, h, starts_with-take-false p s n)

shift-none : (i : ℕ) (o : Option ℕ) → shift i o ≡ none → o ≡ none
shift-none i none h = refl
shift-none i (some j) h = cc

index_of-none : (needle hay : Text) → index_of needle hay ≡ none → includes needle hay ≡ false
unfolding index_of includes
index_of-none needle [] h = ground (arith, h)
index_of-none needle (c ∷ hay) h = elim (Bool-cases (starts_with needle (c ∷ hay))) [
  | inl t ↦ ground (arith, h, t)
  | inr f ↦
      let later = shift-none 1 (index_of needle hay) (rw f at h) in
      rw f (index_of-none needle hay later)
]

-- In front of the first hit there is none.
index_of-first :
    (c : ℕ) (needle hay : Text) (j : ℕ)
    → index_of (c ∷ needle) hay ≡ some j
    → includes (c ∷ needle) (take j hay) ≡ false
unfolding index_of includes
index_of-first c needle [] j h = cc
index_of-first c needle (d ∷ hay) j h = elim (Bool-cases (starts_with (c ∷ needle) (d ∷ hay))) [
  | inl t ↦
      let e : 0 ≡ j = ground (arith, h, t) in
      ap (λ (k : ℕ). includes (c ∷ needle) (take k (d ∷ hay))) (sym e)
  | inr f ↦ (elim (Option-cases (index_of (c ∷ needle) hay)) [
    | inl k ↦ ground (arith, h, f, k)
    | inr (i, k) ↦
        let e : suc i ≡ j = ground (arith, h, f, k) in
        let miss = starts_with-take-false (c ∷ needle) (d ∷ hay) (suc i) f in
        ap (λ (l : ℕ). includes (c ∷ needle) (take l (d ∷ hay))) (sym e)
        ∙ rw miss (index_of-first c needle hay i k)
  ])
]

map-take : (f : ℕ → ℕ) (n : ℕ) (s : Text) → map f (take n s) ≡ take n (map f s)
map-take f zero s = refl
map-take f (suc n) [] = refl
map-take f (suc n) (c ∷ s) = ap (λ t. f c ∷ t) (map-take f n s)

map-drop : (f : ℕ → ℕ) (n : ℕ) (s : Text) → map f (drop n s) ≡ drop n (map f s)
map-drop f zero s = refl
map-drop f (suc n) [] = refl
map-drop f (suc n) (c ∷ s) = map-drop f n s

map_same : (s : Text) → s ≡ map (λ c. c) s
map_same [] = refl
map_same (c ∷ s) = ap (λ t. c ∷ t) (map_same s)

-- A hit, where both strings are folded unit by unit.
hit-map :
    (f : ℕ → ℕ) (line q : Text) (i idx : ℕ)
    → index_from (map f q) (map f line) i ≡ some idx
    → map f (slice idx (idx + length q) line) ≡ map f q
hit-map f line q i idx h = elim (Option-cases (index_of (map f q) (drop i (map f line)))) [
  | inl k ↦ ground (arith, h, k)
  | inr (j, k) ↦
      let e : i + j ≡ idx = ground (arith, h, k) in
      let n : idx + length q - idx ≡ length (map f q) = omega (arith, length-map f q) in
      let d : drop j (drop i (map f line)) ≡ map f (drop idx line) =
        drop-drop i j (map f line)
        ∙ ap (λ (l : ℕ). drop l (map f line)) e
        ∙ sym (map-drop f idx line) in
      ap (λ (l : ℕ). map f (take l (drop idx line))) n
      ∙ map-take f (length (map f q)) (drop idx line)
      ∙ ap (λ t. take (length (map f q)) t) (sym d)
      ∙ index_of-take (map f q) (drop i (map f line)) j k
]

index_of-first-map :
    (f : ℕ → ℕ) (q hay : Text) (j : ℕ)
    → is_nil q ≡ false
    → index_of (map f q) hay ≡ some j
    → includes (map f q) (take j hay) ≡ false
index_of-first-map f [] hay j filled h = cc
index_of-first-map f (c ∷ q) hay j filled h = index_of-first (f c) (map f q) hay j h

-- What stands before a hit holds none.
before-map :
    (f : ℕ → ℕ) (line q : Text) (i idx : ℕ)
    → is_nil q ≡ false
    → index_from (map f q) (map f line) i ≡ some idx
    → includes (map f q) (map f (slice i idx line)) ≡ false
before-map f line q i idx filled h =
    elim (Option-cases (index_of (map f q) (drop i (map f line)))) [
      | inl k ↦ ground (arith, h, k)
      | inr (j, k) ↦
          let e : i + j ≡ idx = ground (arith, h, k) in
          let n : idx - i ≡ j = omega arith in
          ap (includes (map f q)) (
            map-take f (idx - i) (drop i line)
            ∙ ap (λ (l : ℕ). take l (map f (drop i line))) n
            ∙ ap (take j) (map-drop f i line))
          ∙ index_of-first-map f q (drop i (map f line)) j filled k
    ]

-- Nor does what stands behind the last one.
last-map :
    (f : ℕ → ℕ) (line q : Text) (i : ℕ)
    → index_from (map f q) (map f line) i ≡ none
    → includes (map f q) (map f (drop i line)) ≡ false
last-map f line q i h =
    ap (includes (map f q)) (map-drop f i line)
    ∙ index_of-none (map f q) (drop i (map f line)) (shift-none i _ h)

-- `fold_case` as the map of one unit.
abbrev unit_of : (ℕ → ℕ) → Bool → ℕ → ℕ
unit_of f true c = c
unit_of f false c = f c

fold_units : (f : ℕ → ℕ) (cs : Bool) → map (unit_of f cs) ≡ fold_case (map f) cs
fold_units f true = fun_ext λ s. sym (map_same s)
fold_units f false = refl

-- A highlighted segment is the query, and another one does not hold it, in letters that `fold` does not
-- tell apart.
abbrev pub IsSearched : (Text → Text) → Text → Segment → Type 0
IsSearched fold q s =
    ((s.match ≡ true) × (fold s.text ≡ fold q))
    ⊎ ((s.match ≡ false) × ((is_nil q ≡ true) ⊎ (includes (fold q) (fold s.text) ≡ false)))

-- What the loop takes out of a line is searched, where `fold` takes a text unit by unit.
pub record Searches (fold : Text → Text) (line q : Text) : Type 0 where
  pub before :
      (i idx : ℕ)
      → index_from (fold q) (fold line) i ≡ some idx
      → IsSearched fold q (segment (slice i idx line) false)
  pub last :
      (i : ℕ)
      → index_from (fold q) (fold line) i ≡ none
      → IsSearched fold q (segment (drop i line) false)
  pub hit :
      (i idx : ℕ)
      → index_from (fold q) (fold line) i ≡ some idx
      → IsSearched fold q (segment (slice idx (idx + length q) line) true)

map-Searches : (f : ℕ → ℕ) (line q : Text) → is_nil q ≡ false → Searches (map f) line q
map-Searches f line q filled = record {
  before = λ i idx h. inr (refl, inr (before-map f line q i idx filled h));
  last = λ i h. inr (refl, inr (last-map f line q i h));
  hit = λ i idx h. inl (refl, hit-map f line q i idx h);
}

is_nil-length : (q : Text) → is_nil q ≡ false → 0 < length q
is_nil-length [] h = cc
is_nil-length (c ∷ q) h = omega arith

split_blank :
    (lower : Text → Text) (line query : Text) (cs : Bool)
    → is_nil (trim query) ≡ true
    → split_by_match lower line query cs ≡ some (segment line false ∷ [])
unfolding split_by_match
split_blank lower line query cs h = rw h refl

pub split_query :
    (lower : Text → Text) (line query : Text) (cs : Bool)
    → is_nil (trim query) ≡ false
    → split_by_match lower line query cs
      ≡ split_from
          (length line)
          line
          (fold_case lower cs line)
          (fold_case lower cs (trim query))
          (length (trim query))
          0
unfolding split_by_match
split_query lower line query cs h = rw h refl

-- The loop ends, and the segments put together are the line, whatever lower-casing does.
pub split_by_match-shown :
    (to_lower_case : Text → Text) (line query : Text) (case_sensitive : Bool)
    → (ss : List Segment) × (split_by_match to_lower_case line query case_sensitive ≡ some ss)
      × (shown_text ss ≡ line)
unfolding shown_text
split_by_match-shown lower line query cs = elim (Bool-cases (is_nil (trim query))) [
  | inl b ↦ (segment line false ∷ [], split_blank lower line query cs b, append-nil line)
  | inr b ↦
      let (ss, e, shown, _) =
        split_from-Splits (λ _. Unit) line (fold_case lower cs line)
          (fold_case lower cs (trim query)) (length (trim query)) (λ i idx h. tt) (λ i h. tt)
          (λ i idx h. tt) (length line) 0 (is_nil-length (trim query) b) (omega arith) in
      (ss, split_query lower line query cs b ∙ e, shown)
]

-- If lower-casing works unit by unit, then every highlighted segment is the trimmed query up to the
-- case folding that was asked for, and no other segment holds it, unless it is blank.
pub split_by_match-IsSearched :
    (f : ℕ → ℕ) (line query : Text) (case_sensitive : Bool) (ss : List Segment)
    → split_by_match (map f) line query case_sensitive ≡ some ss
    → All (IsSearched (fold_case (map f) case_sensitive) (trim query)) ss
split_by_match-IsSearched f line query cs ss h = elim (Bool-cases (is_nil (trim query))) [
  | inl b ↦
      let e : segment line false ∷ [] ≡ ss =
        ground (arith, h, split_blank (map f) line query cs b) in
      subst (All (IsSearched (fold_case (map f) cs) (trim query))) e (inr (refl, inl b), tt)
  | inr b ↦
      let s : Searches (fold_case (map f) cs) line (trim query) =
        subst (λ fold. Searches fold line (trim query)) (fold_units f cs)
          (map-Searches (unit_of f cs) line (trim query) b) in
      let (rs, r, _, all) =
        split_from-Splits (IsSearched (fold_case (map f) cs) (trim query)) line
          (fold_case (map f) cs line) (fold_case (map f) cs (trim query)) (length (trim query))
          s.before s.last s.hit (length line) 0 (is_nil-length (trim query) b) (omega arith) in
      let q = split_query (map f) line query cs b in
      let e : rs ≡ ss = cc in subst (All (IsSearched (fold_case (map f) cs) (trim query))) e all
]
