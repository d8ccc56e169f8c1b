-- ===== src/Names.antt =====
-- web/src/names.ts: the names that a card of the canvas shows.
pub mod Fit
pub mod Parents
use kd.Common.{
  ℕ, suc, ◌+◌, ◌-◌, ◌/◌, Bool, true, false, not, ◌&&◌, ◌||◌, Option, none, some, List, [], ◌∷◌,
  ◌++◌, Text, text, text_eq, Eq, nat_eq, lower_unit, ◌==◌, if◌then◌else◌, leb, ltb, length, take,
  drop, starts_with, lookup, insert, contains,
}
use mathlib.Core.List.{reverse}
use kd.Types.{KNode, KEdge, truthy, or_empty}

-- '…', one code unit
abbrev pub ellipsis : ℕ
ellipsis = 0x2026

unfoldable pub relative_name : Text → Option Text → Text
relative_name name owner_name = elim (truthy owner_name) [
  | none ↦ name
  | some owner ↦
      if ltb (length owner + 1) (length name) && starts_with (owner ++ text "-") name
      then drop (length owner + 1) name
      else name
]

-- `s.slice(0, s.indexOf(sep))`, and none where `sep` does not occur.
abbrev pub before : ℕ → Text → Option Text
before sep [] = none
before sep (c ∷ s) =
    if c == sep then some [] else elim (before sep s) [ none ↦ none | some head ↦ some (c ∷ head) ]

unfoldable pub short_node_name : Text → Text
short_node_name name = elim (truthy (before b'.' name)) [ none ↦ name | some host ↦ host ]

unfoldable pub middle_truncate : Text → ℕ → Text
middle_truncate s max =
    if leb (length s) max
    then s
    else take ((max - 1 + 1) / 2) s ++ ellipsis ∷ drop (length s - (max - 1) / 2) s

abbrev pub card_name_max : ℕ
card_name_max = 22

abbrev pub card_status_max : ℕ
card_status_max = 24

unfoldable pub card_name : Text → Option Text → Text
card_name name owner_name =
    let rel = relative_name name owner_name in
    if rel == name
    then middle_truncate name card_name_max
    else ellipsis ∷ middle_truncate (b'-' ∷ rel) (card_name_max - 1)

unfoldable pub card_status : Text → Text
card_status status =
    if leb (length status) card_status_max
    then status
    else take (card_status_max - 1) status ++ ellipsis ∷ []

-- The guard on the names of the edge's ends.
abbrev pub is_child_name : Text → Text → Bool
is_child_name parent child =
    not (leb (length child) (length parent + 1) || not (starts_with (parent ++ text "-") child))

-- `cur === undefined || parent.length > cur.length`
abbrev pub is_closer : Text → Option Text → Bool
is_closer parent none = true
is_closer parent (some cur) = ltb (length cur) (length parent)

-- The body of the loop, once the two names are looked up.
unfoldable pub set_parent :
    Text → Option Text → Option Text → List (Text × Text) → List (Text × Text)
set_parent to (some parent) (some child) parents =
    if is_child_name parent child && is_closer parent (lookup to parents)
    then insert to parent parents
    else parents
set_parent to none child parents = parents
set_parent to (some parent) none parents = parents

unfoldable pub add_parents :
    List (Text × Text) → List KEdge → List (Text × Text) → List (Text × Text)
add_parents name_by_id [] parents = parents
add_parents name_by_id (e ∷ edges) parents =
    add_parents name_by_id edges
      (set_parent e.to (lookup e.from name_by_id) (lookup e.to name_by_id) parents)

-- `new Map(nodes.map((n) => [n.id, n.name]))`, over the entries that are there.
unfoldable pub names_from : List KNode → List (Text × Text) → List (Text × Text)
names_from [] entries = entries
names_from (n ∷ nodes) entries = names_from nodes (insert n.id n.name entries)

unfoldable pub prefix_parent_names : List KNode → List KEdge → List (Text × Text)
prefix_parent_names nodes edges = add_parents (names_from nodes []) edges []

-- `/[^aeiou]y$/i`, on the reversed text
abbrev pub consonant_y : Text → Bool
consonant_y [] = false
consonant_y (y ∷ []) = false
consonant_y (y ∷ c ∷ rest) = lower_unit y == b'y' && not (contains (text "aeiou") (lower_unit c))

abbrev pub ends_in_s : Text → Bool
ends_in_s s = starts_with (text "s") (reverse s)

unfoldable pub pluralize_kind : Text → ℕ → Text
pluralize_kind kind n =
    if n == 1 || ends_in_s kind
    then kind
    else if consonant_y (reverse kind)
    then take (length kind - 1) kind ++ text "ies"
    else kind ++ text "s"

abbrev pub kind_alias_table : List (Text × List Text)
kind_alias_table =
    (text "Service", text "svc" ∷ [])
    ∷ (text "StatefulSet", text "sts" ∷ [])
    ∷ (text "PersistentVolumeClaim", text "pvc" ∷ [])
    ∷ (text "CustomResourceDefinition", text "crd" ∷ [])
    ∷ (text "PersistentVolume", text "pv" ∷ [])
    ∷ (text "StorageClass", text "sc" ∷ [])
    ∷ (text "HorizontalPodAutoscaler", text "hpa" ∷ [])
    ∷ (text "PodDisruptionBudget", text "pdb" ∷ [])
    ∷ (text "NetworkPolicy", text "netpol" ∷ [])
    ∷ (text "ResourceQuota", text "quota" ∷ [])
    ∷ (text "MutatingWebhookConfiguration", text "mwhk" ∷ text "mwc" ∷ [])
    ∷ (text "ValidatingWebhookConfiguration", text "vwhk" ∷ text "vwc" ∷ [])
    ∷ []

unfoldable pub kind_aliases : Text → List Text
kind_aliases kind = or_empty (lookup kind kind_alias_table)
