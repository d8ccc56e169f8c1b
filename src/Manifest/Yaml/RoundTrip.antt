-- ===== src/Manifest/Yaml/RoundTrip.antt =====
-- The tokens of a YAML manifest show its text.
use kd.Common.{
  ℕ, suc, ◌+◌, ◌≡◌, refl, sym, ap, subst, ◌∙◌, ◌||◌, ◌&&◌, Option, none, some, List, [], ◌∷◌, ◌++◌,
  append_assoc, append-nil, Text, text, nat_eq, text_eq, ◌==◌, if◌then◌else◌, take, drop,
  split_unit, join_unit, join-split, take-append-drop, Bool-cases, inl, inr, arith,
}
use kd.Manifest.Scalar.{
  leading_spaces, TokType, Token, shown, shown-append, unless_empty, shown-unless_empty, plain, key,
  punct, string,
}
use kd.Manifest.Yaml.{
  token, newline, in_block, key_colon_from, find_key_colon, quoted_end, scalar_tokens, yaml_value,
  yaml_markers, entry_at, after_markers, yaml_entry, yaml_line, yaml_lines, tokenize_yaml, ends_key,
}

-- The separator is a colon of the text.
key_colon-split :
    (quote : Option ℕ) (i j : ℕ) (s : Text)
    → key_colon_from quote i s ≡ some j
    → (k : ℕ) × (j ≡ i + k) × (take k s ++ b':' ∷ drop (suc k) s ≡ s)
unfolding key_colon_from
key_colon-split quote i j [] h = cc
key_colon-split (some q) i j (c ∷ s) h =
    let (k, at, whole) = key_colon-split (if c == q then none else some q) (suc i) j s h in
    (suc k, omega arith, ap (λ t. c ∷ t) whole)
key_colon-split none i j (c ∷ s) h = elim (Bool-cases (c == b'"' || c == b'\'')) [
  | inl quote ↦
      let (k, at, whole) = key_colon-split (some c) (suc i) j s (ground arith) in
      (suc k, omega arith, ap (λ t. c ∷ t) whole)
  | inr bare ↦ elim (Bool-cases (c == b':' && ends_key s)) [
    | inl found ↦ (0, ground arith, ground arith)
    | inr other ↦
        let (k, at, whole) = key_colon-split none (suc i) j s (ground arith) in
        (suc k, omega arith, ap (λ t. c ∷ t) whole)
  ]
]

shown-scalar : (s : Text) → shown (scalar_tokens s).tokens ≡ s
unfolding scalar_tokens
shown-scalar [] = refl
shown-scalar (c ∷ s) = ground (
  arith,
  append-nil (c ∷ s),
  shown-unless_empty (drop (quoted_end (c ∷ s)) (c ∷ s)) plain,
  take-append-drop (quoted_end (c ∷ s)) (c ∷ s),
)

shown-split :
    (n : ℕ) (s : Text) (type : TokType) (ts : List Token)
    → shown ts ≡ drop n s
    → shown (unless_empty (take n s) type ++ ts) ≡ s
shown-split n s type ts h =
    shown-append (unless_empty (take n s) type) ts
    ∙ ap (λ t. t ++ shown ts) (shown-unless_empty (take n s) type)
    ∙ ap (λ t. take n s ++ t) h
    ∙ take-append-drop n s

shown-value : (v : Text) → shown (yaml_value v).tokens ≡ v
unfolding yaml_value
shown-value v = shown-split (leading_spaces v) v plain _ (shown-scalar (drop (leading_spaces v) v))

-- What the loop over markers leaves to read.
abbrev left_over : Option Text → Text
left_over none = []
left_over (some rest) = rest

shown-markers : (s : Text) → shown (yaml_markers s).tokens ++ left_over (yaml_markers s).result ≡ s
unfolding yaml_markers
shown-markers [] = refl
shown-markers (c ∷ []) = ground arith
shown-markers (c ∷ d ∷ s) = ground (
  arith,
  shown-markers s,
  append_assoc (c ∷ d ∷ []) (shown (yaml_markers s).tokens) (left_over (yaml_markers s).result),
)

shown-entry_at :
    (sep : Option ℕ) (s : Text) → find_key_colon s ≡ sep → shown (entry_at sep s).tokens ≡ s
unfolding entry_at find_key_colon
shown-entry_at none s e = shown-value s
shown-entry_at (some sep) s e =
    let (k, at, whole) = key_colon-split none 0 sep s e in
    let same : sep ≡ k = omega arith in
    let value = yaml_value (drop (suc sep) s) in
    shown-append (unless_empty (take sep s) key) (token (text ":") punct ∷ value.tokens)
    ∙ ap (λ t. t ++ b':' ∷ shown value.tokens) (shown-unless_empty (take sep s) key)
    ∙ ap (λ t. take sep s ++ b':' ∷ t) (shown-value (drop (suc sep) s))
    ∙ subst (λ (n : ℕ). take n s ++ b':' ∷ drop (suc n) s ≡ s) (sym same) whole

shown-entry : (s : Text) → shown (yaml_entry s).tokens ≡ s
unfolding yaml_entry
shown-entry [] = refl
shown-entry (c ∷ s) = shown-entry_at (find_key_colon (c ∷ s)) (c ∷ s) refl

shown-after :
    (indent : ℕ) (rest : Option Text) → shown (after_markers indent rest).tokens ≡ left_over rest
unfolding after_markers
shown-after indent none = refl
shown-after indent (some rest) = shown-entry rest

shown-line : (line : Text) → shown (yaml_line line).tokens ≡ line
unfolding yaml_line
shown-line line =
    let indent = leading_spaces line in
    let markers = yaml_markers (drop indent line) in
    let after = after_markers indent markers.result in
    shown-split indent line plain (markers.tokens ++ after.tokens) (
      shown-append markers.tokens after.tokens
      ∙ ap (λ t. shown markers.tokens ++ t) (shown-after indent markers.result)
      ∙ shown-markers (drop indent line))

shown-newline :
    (line : Text) (rest : List Text)
    → line ++ (shown (newline rest) ++ join_unit b'\n' rest) ≡ join_unit b'\n' (line ∷ rest)
unfolding join_unit
shown-newline line [] = append-nil line
shown-newline line (r ∷ rest) = refl

shown-first :
    (ts : List Token) (line : Text) (rest : List Text) (later : List Token)
    → shown ts ≡ line
    → shown later ≡ join_unit b'\n' rest
    → shown (ts ++ (newline rest ++ later)) ≡ join_unit b'\n' (line ∷ rest)
shown-first ts line rest later h k =
    shown-append ts (newline rest ++ later)
    ∙ ap (λ t. shown ts ++ t) (shown-append (newline rest) later)
    ∙ ap (λ t. t ++ (shown (newline rest) ++ shown later)) h
    ∙ ap (λ t. line ++ (shown (newline rest) ++ t)) k
    ∙ shown-newline line rest

shown-lines :
    (block : Option ℕ) (lines : List Text) → shown (yaml_lines block lines) ≡ join_unit b'\n' lines
unfolding yaml_lines join_unit
shown-lines block [] = refl
shown-lines block (line ∷ rest) = elim (Bool-cases (in_block block line)) [
  | inl inside ↦ rw inside (
      shown-first (unless_empty line string) line rest (yaml_lines block rest)
        (shown-unless_empty line string) (shown-lines block rest))
  | inr outside ↦ rw outside (
      shown-first (yaml_line line).tokens line rest (yaml_lines (yaml_line line).result rest)
        (shown-line line) (shown-lines (yaml_line line).result rest))
]

-- The tokens of a YAML manifest show its text unit by unit, whatever the text is.
pub shown-tokenize_yaml : (s : Text) → shown (tokenize_yaml s) ≡ s
unfolding tokenize_yaml
shown-tokenize_yaml s = shown-lines none (split_unit b'\n' s) ∙ join-split b'\n' s
