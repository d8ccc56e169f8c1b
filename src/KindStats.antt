-- ===== src/KindStats.antt =====
-- web/src/kindStats.ts: the counts and the worst health that the kind chips show.
pub mod Tally
pub mod Folding
pub mod Hub
use kd.Common.{
  ℕ, ◌+◌, Bool, Option, none, some, List, [], ◌∷◌, Text, text_eq, if◌then◌else◌, lookup, insert,
}
use kd.Types.{Health, KNode, or_empty}
use kd.Health.{worst_non_healthy}
use kd.Layout.{CollapseMeta, PositionedNode}

pub record KindStat : Type 0 where
  pub count : ℕ
  pub worst : Option Health

-- One more node of the kind: a new entry, or the old one with the count and the health taken in.
unfoldable pub bump : Option KindStat → Health → KindStat
bump none h = record { count = 1; worst = worst_non_healthy (h ∷ []) }
bump (some s) h = record {
  count = s.count + 1;
  worst = worst_non_healthy (elim s.worst [ none ↦ h ∷ [] | some w ↦ w ∷ h ∷ [] ]);
}

-- The function `add`.
unfoldable pub add_stat : KNode → List (Text × KindStat) → List (Text × KindStat)
add_stat n stats = insert n.kind (bump (lookup n.kind stats) n.health) stats

unfoldable pub add_all : List KNode → List (Text × KindStat) → List (Text × KindStat)
add_all [] stats = stats
add_all (n ∷ ns) stats = add_all ns (add_stat n stats)

-- The body of the loop.
unfoldable pub count_drawn : PositionedNode → List (Text × KindStat) → List (Text × KindStat)
count_drawn n stats = elim n.collapse [
  | none ↦ add_stat n.node stats
  | some m ↦
      if m.expanded then stats else add_all (or_empty m.hidden_descendants) (add_all m.hidden stats)
]

unfoldable pub count_all : List PositionedNode → List (Text × KindStat) → List (Text × KindStat)
count_all [] stats = stats
count_all (n ∷ ns) stats = count_all ns (count_drawn n stats)

unfoldable pub kind_stats : List PositionedNode → List (Text × KindStat)
kind_stats nodes = count_all nodes []
