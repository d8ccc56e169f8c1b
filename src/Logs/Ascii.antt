-- ===== src/Logs/Ascii.antt =====
-- What `splitByMatch` of web/src/logs.ts highlights on a line that is searched case-sensitively, or in
-- ASCII letters.
use mathlib.Core.List.{reverse, reverse-cons}
use kd.Common.{
  ℕ, ◌<◌, ◌≡◌, refl, sym, ◌∙◌, subst, Bool, true, false, some, List, [], ◌∷◌, map, Text, trim,
  trim_start, is_space, lower_unit, Bool-cases, inl, inr, All, All-append,
}
use kd.Logs.{Segment, fold_case, split_by_match}
use kd.Logs.Highlight.{shown_text}
use kd.Logs.Hits.{IsSearched, split_by_match-shown, split_by_match-IsSearched}

abbrev pub IsAscii : Text → Type 0
IsAscii s = All (λ c. c < 128) s

-- Of the host's lower-casing only that it takes ASCII letters one by one; elsewhere it may change even
-- the length.
abbrev pub LowersAscii : (Text → Text) → Type 0
LowersAscii lower = (s : Text) → IsAscii s → lower s ≡ map lower_unit s

All-reverse {ℓ κ} : {A : Type ℓ} (P : A → Type κ) (xs : List A) → All P xs → All P (reverse xs)
All-reverse P [] h = tt
All-reverse P (x ∷ xs) h =
    subst (All P) (sym (reverse-cons x xs))
      (All-append P (reverse xs) (x ∷ []) (All-reverse P xs h.1) (h.0, tt))

All-trim_start {κ} : (P : ℕ → Type κ) (s : Text) → All P s → All P (trim_start s)
unfolding trim_start
All-trim_start P [] h = tt
All-trim_start P (c ∷ s) h = elim (Bool-cases (is_space c)) [
  | inl e ↦ rw e (All-trim_start P s h.1)
  | inr e ↦ rw e h
]

All-trim {κ} : (P : ℕ → Type κ) (s : Text) → All P s → All P (trim s)
unfolding trim
All-trim P s h = All-reverse P _ (All-trim_start P _ (All-reverse P _ (All-trim_start P s h)))

-- The two ways to search in which lower-casing is known.
abbrev pub IsFoldable : Bool → Text → Text → Type 0
IsFoldable true line query = Unit
IsFoldable false line query = IsAscii line × IsAscii query

folds :
    (lower : Text → Text) (cs : Bool) (line query : Text)
    → LowersAscii lower
    → IsFoldable cs line query
    → split_by_match lower line query cs ≡ split_by_match (map lower_unit) line query cs
unfolding split_by_match
folds lower true line query host h = refl
folds lower false line query host h =
    rw (host line h.0, host (trim query) (All-trim _ query h.1)) refl

-- If the host's lower-casing takes the letters of ASCII text one by one: a case-sensitive search of any
-- line, and a search of an ASCII line for an ASCII query, returns segments that make up the line. Each
-- highlighted one is the trimmed query, letter for letter if the search is case-sensitive and else up to
-- the case of the ASCII letters; and no other one holds the trimmed query, compared so, unless the query
-- is blank.
pub split_by_match-finds :
    (to_lower_case : Text → Text) (line query : Text) (case_sensitive : Bool)
    → LowersAscii to_lower_case
    → IsFoldable case_sensitive line query
    → (ss : List Segment) × (split_by_match to_lower_case line query case_sensitive ≡ some ss)
      × (shown_text ss ≡ line)
      × All (IsSearched (fold_case (map lower_unit) case_sensitive) (trim query)) ss
split_by_match-finds lower line query cs host h =
    let (ss, e, shown) = split_by_match-shown lower line query cs in
    (
      ss,
      e,
      shown,
      split_by_match-IsSearched lower_unit line query cs ss
          (sym (folds lower cs line query host h) ∙ e),
    )
