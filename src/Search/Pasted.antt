-- ===== src/Search/Pasted.antt =====
-- A pasted "Kind/name" finds its node (nodeMatches of web/src/search.ts).
use kd.Common.{
  ◌≡◌, refl, true, false, ◌∷◌, ◌++◌, [], Text, text_eq, nat_eq, contains, starts_with, includes,
  arith, nat_beq_iff, some, is_nil,
}
use kd.Types.{KNode}
use kd.Search.{cut_slash, node_matches, match_halves}

cut_slash-append :
    (kind name : Text)
    → contains kind b'/' ≡ false
    → cut_slash (kind ++ b'/' ∷ name) ≡ some (kind, name)
unfolding cut_slash contains
cut_slash-append [] name h = refl
cut_slash-append (c ∷ kind) name h = ground (arith, cut_slash-append kind name)

append-filled : (s t : Text) → is_nil s ≡ false → is_nil (s ++ t) ≡ false
append-filled [] t h = cc
append-filled (c ∷ s) t h = refl

starts_with_refl : (s : Text) → starts_with s s ≡ true
starts_with_refl [] = refl
starts_with_refl (c ∷ s) = ground (arith, starts_with_refl s, nat_beq_iff c c)

includes_refl : (s : Text) → includes s s ≡ true
unfolding includes
includes_refl [] = refl
includes_refl (c ∷ s) = rw (starts_with_refl (c ∷ s)) refl

halves-match :
    (lower : Text → Text) (n : KNode) (q : Text)
    → is_nil (lower n.kind) ≡ false
    → contains (lower n.name) b'/' ≡ false
    → match_halves lower n q (some (lower n.kind, lower n.name)) ≡ true
unfolding match_halves
halves-match lower n q h k =
    ground (arith, starts_with_refl (lower n.kind), includes_refl (lower n.name))

-- A query that spells a node's kind, a slash and its name, in any case, matches the node, where
-- the kind is not empty and neither the kind nor the name has a slash.
pub node_matches_pasted :
    (lower : Text → Text) (n : KNode) (query : Text)
    → lower query ≡ lower n.kind ++ b'/' ∷ lower n.name
    → is_nil (lower n.kind) ≡ false
    → contains (lower n.kind) b'/' ≡ false
    → contains (lower n.name) b'/' ≡ false
    → node_matches lower n query ≡ true
unfolding node_matches
node_matches_pasted lower n query spelled named kind_whole name_whole =
    rw
      (
        spelled,
        cut_slash-append (lower n.kind) (lower n.name) kind_whole,
        halves-match lower n (lower n.kind ++ b'/' ∷ lower n.name) named name_whole,
      )
      (ground (arith, append-filled (lower n.kind) (b'/' ∷ lower n.name)))
