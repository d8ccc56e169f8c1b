-- ===== src/Manifest/Json.antt =====
-- tokenizeJson (web/src/manifestSyntax.ts), by what is left of the text at each round.
pub mod RoundTrip
use kd.Common.{
  ℕ, zero, suc, ◌+◌, ◌≡◌, refl, Bool, true, false, ◌||◌, ◌&&◌, Option, none, some, List, [], ◌∷◌,
  ◌++◌, Text, text, nat_eq, text_eq, ◌==◌, if◌then◌else◌, drop, is_digit, starts_with, length,
}
use kd.Manifest.Scalar.{
  TokType, key, string, number, keyword, punct, plain, Token, Format, yaml, json, Cut, grow,
  number_prefix,
}
use kd.Manifest.Yaml.{token, tokenize_yaml}

abbrev pub is_json_space : ℕ → Bool
is_json_space c = c == b' ' || c == b'\n' || c == b'\t' || c == b'\r'

-- The white space at the head of the text.
unfoldable pub space_span : Text → Cut
space_span [] = record { taken = []; rest = [] }
space_span (c ∷ s) =
    let more = grow c (space_span s) in
    if is_json_space c then more else record { taken = []; rest = c ∷ s }

-- The body of a string, its closing quote included; a backslash takes two code units.
unfoldable pub string_span : Text → Cut
string_span [] = record { taken = []; rest = [] }
string_span (c ∷ []) = record { taken = c ∷ []; rest = [] }
string_span (c ∷ d ∷ s) =
    let escaped = grow c (grow d (string_span s)) in
    let later = grow c (string_span (d ∷ s)) in
    if c == b'\\'
    then escaped
    else if c == b'"'
    then record { taken = c ∷ []; rest = d ∷ s }
    else later

abbrev pub starts_colon : Text → Bool
starts_colon [] = false
starts_colon (c ∷ _) = c == b':'

-- One token and the text behind it.
pub record Lexed : Type 0 where
  pub first : Token
  pub rest : Text

-- Whether a string with this text behind it is a key.
abbrev pub string_type : Text → TokType
string_type rest = if starts_colon (space_span rest).rest then key else string

-- The number branch: a "-" with no digit behind it stands alone.
abbrev pub json_number : Option Cut → ℕ → Text → Lexed
json_number none c s = record { first = token (c ∷ []) plain; rest = s }
json_number (some n) c s = record { first = token n.taken number; rest = n.rest }

abbrev pub is_json_punct : ℕ → Bool
is_json_punct c = c == b'{' || c == b'}' || c == b'[' || c == b']' || c == b':' || c == b','

-- One round of the loop, at the code unit `c` with `s` behind it.
unfoldable pub json_token : ℕ → Text → Lexed
json_token c s =
    if is_json_space c
    then record { first = token (c ∷ (space_span s).taken) plain; rest = (space_span s).rest }
    else if c == b'"'
    then record {
      first = token (c ∷ (string_span s).taken) (string_type (string_span s).rest);
      rest = (string_span s).rest;
    }
    else if c == b'-' || is_digit c
    then json_number (number_prefix (c ∷ s)) c s
    else if starts_with (text "true") (c ∷ s)
    then record { first = token (text "true") keyword; rest = drop 4 (c ∷ s) }
    else if starts_with (text "false") (c ∷ s)
    then record { first = token (text "false") keyword; rest = drop 5 (c ∷ s) }
    else if starts_with (text "null") (c ∷ s)
    then record { first = token (text "null") keyword; rest = drop 4 (c ∷ s) }
    else record { first = token (c ∷ []) (if is_json_punct c then punct else plain); rest = s }

abbrev pub prepend : Token → Option (List Token) → Option (List Token)
prepend t none = none
prepend t (some ts) = some (t ∷ ts)

-- The loop; `none` means that the fuel ran out.
unfoldable pub json_tokens : ℕ → Text → Option (List Token)
json_tokens fuel [] = some []
json_tokens zero (c ∷ s) = none
json_tokens (suc fuel) (c ∷ s) =
    prepend (json_token c s).first (json_tokens fuel (json_token c s).rest)

unfoldable pub tokenize_json : Text → Option (List Token)
tokenize_json s = json_tokens (length s) s

unfoldable pub tokenize_manifest : Text → Format → Option (List Token)
tokenize_manifest s json = tokenize_json s
tokenize_manifest s yaml = some (tokenize_yaml s)
