-- ===== src/Manifest/Lines.antt =====
-- splitManifestLines (web/src/manifestSyntax.ts): the tokens of each line.
pub mod RoundTrip
use kd.Common.{◌≡◌, refl, Option, none, some, List, [], ◌∷◌, ◌++◌, Text, split_unit}
use kd.Manifest.Scalar.{TokType, Token, Format}
use kd.Manifest.Yaml.{token}
use kd.Manifest.Json.{tokenize_manifest}

pub record ManifestLine : Type 0 where
  pub text : Text
  pub tokens : List Token

abbrev pub blank_line : ManifestLine
blank_line = record { text = []; tokens = [] }

-- The lines before the last one, and the last one, which grows.
pub record Page : Type 0 where
  pub done : List ManifestLine
  pub cur : ManifestLine

-- A part of a token on the current line; an empty part leaves no token.
unfoldable pub put_part : Text → TokType → ManifestLine → ManifestLine
put_part [] type line = line
put_part (c ∷ s) type line = record {
  text = line.text ++ c ∷ s;
  tokens = line.tokens ++ token (c ∷ s) type ∷ [];
}

-- The parts behind the first: each starts a line.
unfoldable pub put_parts : TokType → List Text → Page → Page
put_parts type [] page = page
put_parts type (p ∷ ps) page =
    put_parts type ps
      (record { done = page.done ++ page.cur ∷ []; cur = put_part p type blank_line })

abbrev pub put_split : TokType → List Text → Page → Page
put_split type [] page = page
put_split type (p ∷ ps) page = put_parts type ps (record page { cur = put_part p type page.cur })

unfoldable pub put_tokens : List Token → Page → Page
put_tokens [] page = page
put_tokens (t ∷ ts) page = put_tokens ts (put_split t.type (split_unit b'\n' t.text) page)

abbrev pub all_lines : Page → List ManifestLine
all_lines page = page.done ++ page.cur ∷ []

abbrev pub lines_of : List Token → List ManifestLine
lines_of ts = all_lines (put_tokens ts (record { done = []; cur = blank_line }))

unfoldable pub split_manifest_lines : Text → Format → Option (List ManifestLine)
split_manifest_lines s format = elim (tokenize_manifest s format) [
  | none ↦ none
  | some ts ↦ some (lines_of ts)
]
