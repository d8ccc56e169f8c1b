-- ===== src/Search.antt =====
-- `nodeMatches` of web/src/search.ts, with the case mapping of the language as an argument.
pub mod Pasted
use kd.Common.{
  ◌+◌, Bool, true, false, ◌&&◌, ◌||◌, Option, none, some, List, [], ◌∷◌, Text, text, text_eq, Eq,
  nat_eq, ◌==◌, if◌then◌else◌, any, starts_with, includes, contains, is_nil,
}
use kd.Types.{KNode, or_empty}
use kd.Names.{kind_aliases}

-- The two halves around the first slash: `q.slice(0, slash)` and `q.slice(slash + 1)`.
unfoldable pub cut_slash : Text → Option (Text × Text)
cut_slash [] = none
cut_slash (c ∷ s) =
    let rest = cut_slash s in
    if c == b'/'
    then some ([], s)
    else elim rest [ none ↦ none | some halves ↦ some (c ∷ halves.0, halves.1) ]

module _ (to_lower_case : Text → Text) where
  -- `s?.toLowerCase().includes(q)`
  abbrev pub has_query : Text → Option Text → Bool
  has_query q none = false
  has_query q (some s) = includes q (to_lower_case s)

  abbrev pub kind_ok : KNode → Text → Bool
  kind_ok n kind_q =
      is_nil kind_q
      || starts_with kind_q (to_lower_case n.kind)
      || any (starts_with kind_q) (kind_aliases n.kind)

  abbrev pub name_ok : KNode → Text → Bool
  name_ok n name_q = is_nil name_q || includes name_q (to_lower_case n.name)

  -- The substring path.
  unfoldable pub plain_match : KNode → Text → Bool
  plain_match n q =
      includes q (to_lower_case n.name)
      || includes q (to_lower_case n.kind)
      || any (includes q) (kind_aliases n.kind)
      || has_query q n.status
      || has_query q n.host
      || has_query q n.cluster_ip
      || has_query q n.external_ip
      || any (λ img. includes q (to_lower_case img)) (or_empty n.images)
      || any (λ l. includes q (to_lower_case l.0) || includes q (to_lower_case l.1))
          (or_empty n.labels)

  -- The query of one slash, or else the substring path.
  unfoldable pub match_halves : KNode → Text → Option (Text × Text) → Bool
  match_halves n q none = plain_match n q
  match_halves n q (some (kind_q, name_q)) =
      if contains name_q b'/'
      then plain_match n q
      else if is_nil kind_q && is_nil name_q
      then false
      else if kind_ok n kind_q && name_ok n name_q
      then true
      else plain_match n q

  unfoldable pub node_matches : KNode → Text → Bool
  node_matches n query =
      let q = to_lower_case query in if is_nil q then false else match_halves n q (cut_slash q)
