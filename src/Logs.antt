-- ===== src/Logs.antt =====
-- web/src/logs.ts: the container that is streamed, and the highlighting of matches in a log line.
pub mod Highlight
pub mod Hits
pub mod Ascii
pub mod Level
pub mod Kept
use kd.Common.{
  ℕ, zero, suc, ◌+◌, ◌-◌, Bool, true, false, Option, none, some, List, [], ◌∷◌, ◌++◌, Text, text,
  text_eq, if◌then◌else◌, ltb, length, take, drop, contains, starts_with, trim, is_nil,
}

pub record Segment : Type 0 where
  pub text : Text
  pub match : Bool

abbrev pub segment : Text → Bool → Segment
segment t m = record { text = t; match = m }

-- `containers[0] ?? ''`
abbrev pub first_container : List Text → Text
first_container [] = []
first_container (c ∷ _) = c

unfoldable pub default_log_container : List Text → Text
default_log_container containers =
    if contains containers (text "main") then text "main" else first_container containers

abbrev pub shift : ℕ → Option ℕ → Option ℕ
shift n none = none
shift n (some i) = some (n + i)

-- `hay.indexOf(needle)`, and from the position `i`
unfoldable pub index_of : Text → Text → Option ℕ
index_of needle [] = if starts_with needle [] then some 0 else none
index_of needle (c ∷ hay) =
    let later = index_of needle hay in
    if starts_with needle (c ∷ hay) then some 0 else shift 1 later

abbrev pub index_from : Text → Text → ℕ → Option ℕ
index_from needle hay i = shift i (index_of needle (drop i hay))

-- `s.slice(a, b)`
abbrev pub slice : ℕ → ℕ → Text → Text
slice a b s = take (b - a) (drop a s)

-- One turn of the loop in which the needle was found at `idx`.
abbrev pub push_match : Text → ℕ → ℕ → ℕ → List Segment → List Segment
push_match line n i idx rest =
    let hit = segment (slice idx (idx + n) line) true ∷ rest in
    if ltb i idx then segment (slice i idx line) false ∷ hit else hit

-- The loop from the position `i`, for a query of length `n`; `none` means that the fuel ran out.
unfoldable pub split_from : ℕ → Text → Text → Text → ℕ → ℕ → Option (List Segment)
split_from zero line hay needle n i = if ltb i (length line) then none else some []
split_from (suc fuel) line hay needle n i =
    if ltb i (length line)
    then (elim (index_from needle hay i) [
      | none ↦ some (segment (drop i line) false ∷ [])
      | some idx ↦ (elim (split_from fuel line hay needle n (idx + n)) [
        | none ↦ none
        | some rest ↦ some (push_match line n i idx rest)
      ])
    ])
    else some []

-- `toLowerCase` of the host.
module _ (to_lower_case : Text → Text) where
  abbrev pub fold_case : Bool → Text → Text
  fold_case true s = s
  fold_case false s = to_lower_case s

  unfoldable pub split_by_match : Text → Text → Bool → Option (List Segment)
  split_by_match line query case_sensitive =
      let q = trim query in
      if is_nil q
      then some (segment line false ∷ [])
      else split_from (length line) line (fold_case case_sensitive line)
          (fold_case case_sensitive q) (length q) 0
