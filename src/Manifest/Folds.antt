-- ===== src/Manifest/Folds.antt =====
-- computeFolds (web/src/manifestSyntax.ts): the regions that indentation folds.
pub mod Regions
use kd.Common.{
  ℕ, suc, ◌+◌, ◌-◌, ◌≡◌, refl, Bool, true, false, not, ◌||◌, ◌&&◌, Option, none, some, List, [],
  ◌∷◌, ◌++◌, map, Text, text, nat_eq, text_eq, ◌==◌, if◌then◌else◌, drop, is_nil, starts_with, ltb,
}
use kd.Manifest.Scalar.{leading_spaces}

pub record FoldRegion : Type 0 where
  pub header : ℕ
  pub end : ℕ
  pub hidden_count : ℕ

pub record LineMeta : Type 0 where
  pub indent : ℕ
  pub blank : Bool
  pub seq : Bool

unfoldable pub line_meta : Text → LineMeta
line_meta s =
    let indent = leading_spaces s in
    let t = drop indent s in
    record { indent = indent; blank = is_nil t; seq = t == text "-" || starts_with (text "- ") t }

abbrev pub inside : LineMeta → LineMeta → Bool
inside m header = ltb header.indent m.indent || m.indent == header.indent && m.seq && not header.seq

-- The loop over `k`: the last solid line of the region so far, and the lines from `k` on.
unfoldable pub body_end : LineMeta → ℕ → Option ℕ → List LineMeta → Option ℕ
body_end header k last [] = last
body_end header k last (m ∷ ms) =
    let skipped = body_end header (suc k) last ms in
    let longer = body_end header (suc k) (some k) ms in
    if m.blank then skipped else if inside m header then longer else last

-- The loop over `j`, and the loop over `k` that starts where it stops; `none` is -1.
unfoldable pub region_end : LineMeta → ℕ → List LineMeta → Option ℕ
region_end header j [] = none
region_end header j (m ∷ ms) =
    let skipped = region_end header (suc j) ms in
    if m.blank then skipped else if inside m header then body_end header j none (m ∷ ms) else none

abbrev pub region : ℕ → Option ℕ → List FoldRegion
region i none = []
region i (some last) =
    if ltb i last then record { header = i; end = last; hidden_count = last - i } ∷ [] else []

unfoldable pub folds_from : ℕ → List LineMeta → List FoldRegion
folds_from i [] = []
folds_from i (m ∷ ms) =
    let found = region i (region_end m (suc i) ms) in
    let rest = folds_from (suc i) ms in if m.blank then rest else found ++ rest

unfoldable pub compute_folds : List Text → List FoldRegion
compute_folds lines = folds_from 0 (map line_meta lines)
