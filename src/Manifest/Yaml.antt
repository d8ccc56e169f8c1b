-- ===== src/Manifest/Yaml.antt =====
-- tokenizeYaml and its helpers (web/src/manifestSyntax.ts), one line at a time.
pub mod RoundTrip
use kd.Common.{
  ℕ, suc, ◌+◌, ◌≡◌, refl, Bool, true, false, ◌||◌, ◌&&◌, Option, none, some, List, [], ◌∷◌, ◌++◌,
  Text, text, nat_eq, text_eq, ◌==◌, if◌then◌else◌, take, drop, ltb, is_blank, split_unit,
}
use kd.Manifest.Scalar.{
  TokType, key, string, number, keyword, punct, plain, Token, unless_empty, is_number,
  is_block_indicator, leading_spaces,
}

abbrev pub token : Text → TokType → Token
token s type = record { text = s; type = type }

-- What a helper pushes, with its result.
pub record Pushed (A : Type 0) : Type 0 where
  pub tokens : List Token
  pub result : A

-- `i + 1 >= s.length || s[i + 1] === ' '`, on what follows index `i`.
abbrev pub ends_key : Text → Bool
ends_key [] = true
ends_key (c ∷ _) = c == b' '

-- The loop of `findKeyColon` from index `i`; the quote that is open, if any, is the first argument.
unfoldable pub key_colon_from : Option ℕ → ℕ → Text → Option ℕ
key_colon_from quote i [] = none
key_colon_from (some q) i (c ∷ s) = key_colon_from (if c == q then none else some q) (suc i) s
key_colon_from none i (c ∷ s) =
    let opened = key_colon_from (some c) (suc i) s in
    let later = key_colon_from none (suc i) s in
    if c == b'"' || c == b'\'' then opened else if c == b':' && ends_key s then some i else later

unfoldable pub find_key_colon : Text → Option ℕ
find_key_colon s = key_colon_from none 0 s

-- The loop of `quotedEnd` from index `i`; a backslash in double quotes skips one code unit.
unfoldable pub quote_end_from : ℕ → ℕ → Text → ℕ
quote_end_from q i [] = i
quote_end_from q i (c ∷ []) = suc i
quote_end_from q i (c ∷ d ∷ s) =
    let skipped = quote_end_from q (suc (suc i)) s in
    let later = quote_end_from q (suc i) (d ∷ s) in
    if q == b'"' && c == b'\\' then skipped else if c == q then suc i else later

unfoldable pub quoted_end : Text → ℕ
quoted_end [] = 0
quoted_end (q ∷ s) = quote_end_from q 1 s

abbrev pub single : Text → TokType → Pushed Bool
single t type = record { tokens = token t type ∷ []; result = false }

-- The scalar of a value, after its leading spaces.
unfoldable pub scalar_tokens : Text → Pushed Bool
scalar_tokens [] = record { tokens = []; result = false }
scalar_tokens (c ∷ s) =
    let t = c ∷ s in
    if is_block_indicator t
    then record { tokens = token t punct ∷ []; result = true }
    else if t == text "{}" || t == text "[]"
    then single t punct
    else if c == b'"' || c == b'\''
    then record {
      tokens = token (take (quoted_end t) t) string ∷ unless_empty (drop (quoted_end t) t) plain;
      result = false;
    }
    else if is_number t
    then single t number
    else if t == text "true" || t == text "false" || t == text "null" || t == text "~"
    then single t keyword
    else single t string

-- tokenizeYamlValue; the result says whether a block scalar opens.
unfoldable pub yaml_value : Text → Pushed Bool
yaml_value v =
    let ws = leading_spaces v in
    let scalar = scalar_tokens (drop ws v) in
    record { tokens = unless_empty (take ws v) plain ++ scalar.tokens; result = scalar.result }

-- The loop over sequence markers; `none` is the early return at a lone "-".
unfoldable pub yaml_markers : Text → Pushed (Option Text)
yaml_markers [] = record { tokens = []; result = some [] }
yaml_markers (c ∷ []) =
    if c == b'-'
    then record { tokens = token (c ∷ []) punct ∷ []; result = none }
    else record { tokens = []; result = some (c ∷ []) }
yaml_markers (c ∷ d ∷ s) =
    let more = yaml_markers s in
    if c == b'-' && d == b' '
    then record { tokens = token (c ∷ d ∷ []) punct ∷ more.tokens; result = more.result }
    else record { tokens = []; result = some (c ∷ d ∷ s) }

-- The key, its colon and its value; without a separator a lone scalar.
unfoldable pub entry_at : Option ℕ → Text → Pushed Bool
entry_at none s = yaml_value s
entry_at (some sep) s =
    let value = yaml_value (drop (suc sep) s) in
    record {
      tokens = unless_empty (take sep s) key ++ token (text ":") punct ∷ value.tokens;
      result = value.result;
    }

unfoldable pub yaml_entry : Text → Pushed Bool
yaml_entry [] = record { tokens = []; result = false }
yaml_entry (c ∷ s) = entry_at (find_key_colon (c ∷ s)) (c ∷ s)

-- What follows the markers of a line with this indent.
unfoldable pub after_markers : ℕ → Option Text → Pushed (Option ℕ)
after_markers indent none = record { tokens = []; result = none }
after_markers indent (some rest) =
    let entry = yaml_entry rest in
    record { tokens = entry.tokens; result = if entry.result then some indent else none }

-- tokenizeYamlLine; the result is the indent, if the line opens a block scalar.
unfoldable pub yaml_line : Text → Pushed (Option ℕ)
yaml_line line =
    let indent = leading_spaces line in
    let markers = yaml_markers (drop indent line) in
    let after = after_markers indent markers.result in
    record {
      tokens = unless_empty (take indent line) plain ++ (markers.tokens ++ after.tokens);
      result = after.result;
    }

-- The line end after a line that is not the last.
abbrev pub newline : List Text → List Token
newline [] = []
newline (_ ∷ _) = token (b'\n' ∷ []) plain ∷ []

-- Whether a line is inside the block scalar that a key at this indent opened.
abbrev pub in_block : Option ℕ → Text → Bool
in_block none line = false
in_block (some indent) line = is_blank line || ltb indent (leading_spaces line)

-- The loop of `tokenizeYaml`.
unfoldable pub yaml_lines : Option ℕ → List Text → List Token
yaml_lines block [] = []
yaml_lines block (line ∷ rest) =
    let inside = unless_empty line string ++ (newline rest ++ yaml_lines block rest) in
    let parsed = yaml_line line in
    let outside = parsed.tokens ++ (newline rest ++ yaml_lines parsed.result rest) in
    if in_block block line then inside else outside

unfoldable pub tokenize_yaml : Text → List Token
tokenize_yaml s = yaml_lines none (split_unit b'\n' s)
