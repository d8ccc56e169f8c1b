-- ===== src/Manifest/Json/RoundTrip.antt =====
-- The tokens of a JSON manifest show its text, and the scanner reaches its end.
use kd.Common.{
  ℕ, zero, suc, ◌≤◌, ◌<◌, ◌≡◌, refl, ap, ◌∙◌, true, Option, none, some, List, [], ◌∷◌, ◌++◌, Text,
  text, nat_eq, text_eq, drop, starts_with, length, length-append, arith, nat_beq_iff,
}
use kd.Manifest.Scalar.{
  TokType, Token, Format, yaml, json, shown, Cut, Splits, number_prefix, number_prefix-Splits,
  number_prefix_shortens,
}
use kd.Manifest.Yaml.{token, tokenize_yaml}
use kd.Manifest.Yaml.RoundTrip.{shown-tokenize_yaml}
use kd.Manifest.Json.{
  space_span, string_span, Lexed, json_number, json_token, prepend, json_tokens, tokenize_json,
  tokenize_manifest,
}

space_span-Splits : (s : Text) → Splits s (space_span s)
unfolding space_span
space_span-Splits [] = refl
space_span-Splits (c ∷ s) = ground (arith, space_span-Splits s)

string_span-Splits : (s : Text) → Splits s (string_span s)
unfolding string_span
string_span-Splits [] = refl
string_span-Splits (c ∷ []) = refl
string_span-Splits (c ∷ d ∷ s) = ground (arith, string_span-Splits s, string_span-Splits (d ∷ s))

-- Text that starts with a word is the word and what follows.
starts_with-drop : (p s : Text) → starts_with p s ≡ true → p ++ drop (length p) s ≡ s
starts_with-drop [] s h = refl
starts_with-drop (c ∷ p) [] h = cc
starts_with-drop (c ∷ p) (d ∷ s) h = ground (arith, starts_with-drop p s, nat_beq_iff c d)

-- One round takes its token off the head of the text, and makes the text shorter.
abbrev Lexes : Text → Lexed → Type 0
Lexes s l = (l.first.text ++ l.rest ≡ s) × (length l.rest < length s)

span-shorter : (c : ℕ) (s : Text) (a : Cut) → Splits s a → length a.rest < length (c ∷ s)
span-shorter c s a h = omega (arith, ap length h, length-append a.taken a.rest)

json_number-Lexes :
    (o : Option Cut) (c : ℕ) (s : Text)
    → number_prefix (c ∷ s) ≡ o
    → Lexes (c ∷ s) (json_number o c s)
json_number-Lexes none c s e = (refl, omega arith)
json_number-Lexes (some n) c s e =
    (number_prefix-Splits (c ∷ s) n e, number_prefix_shortens (c ∷ s) n e)

keyword-Lexes :
    (p : Text) (c : ℕ) (s : Text) (type : TokType)
    → starts_with p (c ∷ s) ≡ true
    → 0 < length p
    → Lexes (c ∷ s) (record { first = token p type; rest = drop (length p) (c ∷ s) })
keyword-Lexes p c s type h pos =
    let whole = starts_with-drop p (c ∷ s) h in
    (whole, omega (arith, ap length whole, length-append p (drop (length p) (c ∷ s))))

json_token-Lexes : (c : ℕ) (s : Text) → Lexes (c ∷ s) (json_token c s)
unfolding json_token
json_token-Lexes c s = ground (
  arith,
  space_span-Splits s,
  span-shorter c s (space_span s),
  string_span-Splits s,
  span-shorter c s (string_span s),
  json_number-Lexes (number_prefix (c ∷ s)) c s,
  keyword-Lexes (text "true") c s TokType.keyword,
  keyword-Lexes (text "false") c s TokType.keyword,
  keyword-Lexes (text "null") c s TokType.keyword,
)

json_tokens_show :
    (fuel : ℕ) (s : Text)
    → length s ≤ fuel
    → (ts : List Token) × (json_tokens fuel s ≡ some ts) × (shown ts ≡ s)
unfolding json_tokens
json_tokens_show fuel [] h = ([], refl, refl)
json_tokens_show zero (c ∷ s) h = absurd (omega arith)
json_tokens_show (suc fuel) (c ∷ s) h =
    let (whole, less) = json_token-Lexes c s in
    let (ts, e, same) = json_tokens_show fuel (json_token c s).rest (omega arith) in
    (
      (json_token c s).first ∷ ts,
      ap (prepend (json_token c s).first) e,
      ap (λ t. (json_token c s).first.text ++ t) same ∙ whole,
    )

-- `tokenizeManifest` returns for every text and both formats, whether or not the text is well formed,
-- and the texts of its tokens, one after the other, are the input, unit by unit.
pub tokenize_manifest_show :
    (s : Text) (format : Format)
    → (ts : List Token) × (tokenize_manifest s format ≡ some ts) × (shown ts ≡ s)
unfolding tokenize_manifest tokenize_json
tokenize_manifest_show s json = json_tokens_show (length s) s (omega arith)
tokenize_manifest_show s yaml = (tokenize_yaml s, refl, shown-tokenize_yaml s)
