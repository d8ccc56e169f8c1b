-- ===== src/Graph/State/Keys.antt =====
-- The identity of an edge: `edgeKey` of web/src/graphState.ts.
use kd.Common.{◌≡◌, ◌≢◌, [], ◌∷◌, ◌++◌, Text, arith, All}
use kd.Types.{EdgeType, KEdge, edge_type_name}
use kd.Graph.State.{edge_key}

-- A text in which the separator of the key does not occur.
abbrev pub NoBar : Text → Type 0
NoBar s = All (λ c. c ≢ b'|') s

pub record IsPlain (e : KEdge) : Type 0 where
  pub from : NoBar e.from
  pub to : NoBar e.to

-- The text before the first separator is determined by the joined text.
split_bar :
    (s t : Text) {u v : Text}
    → NoBar s
    → NoBar t
    → s ++ b'|' ∷ u ≡ t ++ b'|' ∷ v
    → (s ≡ t) × (u ≡ v)
split_bar [] [] hs ht h = ground arith
split_bar [] (d ∷ t) hs ht h = absurd (ht.0 (ground arith))
split_bar (c ∷ s) [] hs ht h = absurd (hs.0 (ground arith))
split_bar (c ∷ s) (d ∷ t) {u} {v} hs ht h = ground (arith, split_bar s t {u = u} {v = v} hs.1 ht.1)

edge_type_name-injective : (a b : EdgeType) → edge_type_name a ≡ edge_type_name b → a ≡ b
edge_type_name-injective a b h = ground arith

-- Two edges whose endpoints hold no separator have the same key only if they agree in both
-- endpoints and in the type.
pub edge_key-injective : (a b : KEdge) → IsPlain a → IsPlain b → edge_key a ≡ edge_key b → a ≡ b
unfolding edge_key
edge_key-injective a b ha hb h =
    let (f, rest) = split_bar a.from b.from ha.from hb.from h in
    let (t, name) = split_bar a.to b.to ha.to hb.to rest in
    ground (arith, edge_type_name-injective a.type b.type name)
