-- ===== src/Tests/Texts.antt =====
-- Manifests and log lines with colours, at short texts.
use kd.Common.{◌≡◌, refl, true, false, some, List, [], ◌∷◌, ◌++◌, map, Text, text, All, join_unit}
use kd.Manifest.Scalar.{Token, TokType, Format, shown, leading_spaces}
use kd.Manifest.Yaml.{token}
use kd.Manifest.Json.{tokenize_manifest}
use kd.Manifest.Json.RoundTrip.{tokenize_manifest_show}
use kd.Manifest.Lines.{ManifestLine, split_manifest_lines}
use kd.Manifest.Lines.RoundTrip.{IsLine, split_manifest_lines_show}
use kd.Manifest.Folds.{LineMeta, line_meta, compute_folds, folds_from, region_end, body_end}
use kd.Manifest.Folds.Regions.{IsFold, Stops, compute_folds-IsFold, compute_folds_complete}
use kd.Manifest.Runs.{Run, merge_match_runs}
use kd.Manifest.Runs.Cover.{Covers, merge_match_runs-Covers}
use kd.Ansi.{AnsiSegment, parse_ansi}
use kd.Ansi.Segments.{Strips, shown as shown_segments, parse_ansi-Strips}

abbrev manifest : Text
manifest = text "kind: Pod" ++ b'\n' ∷ text "replicas: 3"

tokenize_manifest_show_example :
    (ts : List Token) × (tokenize_manifest manifest Format.yaml ≡ some ts) × (shown ts ≡ manifest)
tokenize_manifest_show_example = tokenize_manifest_show manifest Format.yaml

split_manifest_lines_show_example :
    (ls : List ManifestLine) × (split_manifest_lines manifest Format.yaml ≡ some ls)
    × (join_unit b'\n' (map (λ l. l.text) ls) ≡ manifest)
    × All IsLine ls
split_manifest_lines_show_example = split_manifest_lines_show manifest Format.yaml

abbrev folding_lines : List Text
folding_lines = text "spec:" ∷ text "  a: 1" ∷ text "kind: Pod" ∷ []

compute_folds-IsFold_example :
    All (IsFold (map line_meta folding_lines)) (compute_folds folding_lines)
compute_folds-IsFold_example = compute_folds-IsFold folding_lines

abbrev solid_meta : LineMeta
solid_meta = record { indent = 2; blank = false; seq = false }

compute_folds_complete_example : Stops solid_meta (map line_meta (text "kind: Pod" ∷ []))
unfolding compute_folds line_meta leading_spaces folds_from region_end body_end
compute_folds_complete_example =
    compute_folds_complete folding_lines 1 solid_meta (map line_meta (text "kind: Pod" ∷ [])) refl
      refl refl

abbrev tokens : List Token
tokens = token (text "kind") TokType.key ∷ token (text ": Pod") TokType.plain ∷ []

abbrev runs : List Run
runs =
    record { text = text "kin"; match = true } ∷ record { text = text "d: Pod"; match = false } ∷ []

merge_match_runs-Covers_example : Covers runs (merge_match_runs tokens runs)
merge_match_runs-Covers_example = merge_match_runs-Covers tokens runs refl

abbrev coloured : Text
coloured = 0x1b ∷ text "[31mred"

parse_ansi-Strips_example :
    (segs : List AnsiSegment) × (parse_ansi coloured ≡ some segs)
    × Strips coloured (shown_segments segs)
parse_ansi-Strips_example = parse_ansi-Strips coloured
