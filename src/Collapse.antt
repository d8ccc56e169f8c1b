-- ===== src/Collapse.antt =====
-- The first part of web/src/layout/collapse.ts: how a crowded cluster of one kind is folded.
pub mod Expanding
use kd.Common.{
  ℕ, ◌+◌, ◌-◌, Bool, true, false, not, ◌&&◌, Option, none, some, List, [], ◌∷◌, ◌++◌, map, Text,
  text_eq, if◌then◌else◌, ltb, filter, length, take, drop, contains, add, Ordering, sort,
}
use kd.Types.{KNode}

-- COLLAPSE_HEAD, COLLAPSE_TAIL, COLLAPSE_VISIBLE and COLLAPSE_MIN_HIDDEN
abbrev pub collapse_head : ℕ
collapse_head = 1

abbrev pub collapse_tail : ℕ
collapse_tail = 2

abbrev pub collapse_visible : ℕ
collapse_visible = collapse_head + collapse_tail

abbrev pub collapse_min_hidden : ℕ
collapse_min_hidden = 2

pub record Fold : Type 0 where
  pub visible : List KNode
  pub hidden : List KNode
  pub pill_index : ℕ

-- `new Set(ns.map((n) => n.id))`, with the set so far.
unfoldable pub id_set : List Text → List KNode → List Text
id_set s [] = s
id_set s (n ∷ ns) = id_set (add s n.id) ns

abbrev pub whole : List KNode → List KNode → Fold
whole ns hidden = record { visible = ns; hidden = hidden; pill_index = length ns }

-- The matches first, then the rest.
abbrev pub floated : List Text → List KNode → List KNode
floated match_set sorted =
    filter (λ n. contains match_set n.id) sorted
    ++ filter (λ n. not (contains match_set n.id)) sorted

abbrev pub fold_floated : Bool → List KNode → Fold
fold_floated expanded ordered =
    let hidden = drop collapse_visible ordered in
    if expanded then whole ordered hidden else record {
      visible = take collapse_visible ordered;
      hidden = hidden;
      pill_index = collapse_visible;
    }

abbrev pub fold_middle : Bool → List KNode → Fold
fold_middle expanded sorted =
    let last = length sorted - collapse_tail in
    let hidden = take (last - collapse_head) (drop collapse_head sorted) in
    if expanded then whole sorted hidden else record {
      visible = take collapse_head sorted ++ drop last sorted;
      hidden = hidden;
      pill_index = collapse_head;
    }

-- The ids of the matches, where the filter marks a proper subset.
abbrev pub match_set_of : Option (KNode → Bool) → List KNode → Option (List Text)
match_set_of none sorted = none
match_set_of (some prioritize) sorted =
    let match_set = id_set [] (filter prioritize sorted) in
    if ltb 0 (length match_set) && ltb (length match_set) (length sorted)
    then some match_set
    else none

-- The comparator `cmp`, by default `byName`.
module _ (cmp : KNode → KNode → Ordering) where
  unfoldable pub split_for_fold : List KNode → Bool → Option (KNode → Bool) → Fold
  split_for_fold nodes expanded prioritize =
      let sorted = sort cmp nodes in
      if ltb (length sorted) (collapse_visible + collapse_min_hidden)
      then whole sorted []
      else (elim (match_set_of prioritize sorted) [
        | some match_set ↦ fold_floated expanded (floated match_set sorted)
        | none ↦ fold_middle expanded sorted
      ])
