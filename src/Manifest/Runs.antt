-- ===== src/Manifest/Runs.antt =====
-- mergeMatchRuns (web/src/manifestSyntax.ts): the syntax tokens cut at the ends of the search hits.
pub mod Cover
use kd.Common.{
  ℕ, zero, suc, ◌+◌, ◌-◌, Bool, true, false, List, [], ◌∷◌, Text, if◌then◌else◌, take, drop, length,
  leb, min,
}
use kd.Manifest.Scalar.{TokType, Token}
use kd.Manifest.Yaml.{token}

-- `Span` of the source has the fields of a token.
abbrev pub Span : Type 0
Span = Token

-- A segment of the search, as splitByMatch gives it.
pub record Run : Type 0 where
  pub text : Text
  pub match : Bool

pub record MatchRun : Type 0 where
  pub match : Bool
  pub spans : List Span

-- What the inner loop leaves: its spans, the tokens from `ti` on, and the offset `to`.
pub record Cursor : Type 0 where
  pub spans : List Span
  pub tokens : List Token
  pub offset : ℕ

-- The inner loop. Where the token is not used up, all that remained was taken, so the loop ends.
unfoldable pub take_spans : ℕ → ℕ → List Token → Cursor
take_spans to zero tokens = record { spans = []; tokens = tokens; offset = to }
take_spans to (suc remaining) [] = record { spans = []; tokens = []; offset = to }
take_spans to (suc remaining) (tok ∷ tokens) =
    let n = min (length tok.text - to) (suc remaining) in
    let span = token (take n (drop to tok.text)) tok.type in
    let next = take_spans 0 (suc remaining - n) tokens in
    if leb (length tok.text) (to + n)
    then record { spans = span ∷ next.spans; tokens = next.tokens; offset = next.offset }
    else record { spans = span ∷ []; tokens = tok ∷ tokens; offset = to + n }

-- The loop over the runs.
unfoldable pub merge_from : ℕ → List Token → List Run → List MatchRun
merge_from to tokens [] = []
merge_from to tokens (run ∷ runs) =
    let cursor = take_spans to (length run.text) tokens in
    record { match = run.match; spans = cursor.spans } ∷ merge_from cursor.offset cursor.tokens runs

unfoldable pub merge_match_runs : List Token → List Run → List MatchRun
merge_match_runs tokens runs = merge_from 0 tokens runs
