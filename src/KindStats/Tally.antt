-- ===== src/KindStats/Tally.antt =====
-- What the entries of web/src/kindStats.ts are for the nodes that they stand for.
use mathlib.Core.List.{Perm}
use mathlib.Core.List.Perm
use mathlib.Core.List.{foldr}
use mathlib.Core.Bool.{Bool-set, ◌||◌, ◌&&◌}
use native.Mathlib.Nat.{ℕ_set}
use kd.Common.{
  ℕ, suc, ◌≡◌, refl, sym, ◌∙◌, Bool, false, Option, none, some, List, [], ◌∷◌, ◌++◌, append_assoc,
  append-nil, Text, text_eq, ◌==◌, if◌then◌else◌, lookup, lookup-insert, arith, length, contains,
  Option-cases, length-append, ◌≢◌, subst, Bool-cases, inl, inr, ==_iff,
}
use kd.Types.{Health, KNode, or_empty, health_eq, health_beq_iff}
use kd.Health.{worse, worst_from, worst_non_healthy}
use kd.Health.Worst.{IsWorst, worst_non_healthy-IsWorst, worst_non_healthy_congr}
use kd.Layout.{card, pill, PositionedNode}
use kd.KindStats.{KindStat, bump, add_stat, add_all, count_drawn, count_all, kind_stats}

-- The health of the nodes of one kind, in order.
abbrev pub healths : Text → List KNode → List Health
healths k [] = []
healths k (n ∷ ns) = if n.kind == k then n.health ∷ healths k ns else healths k ns

-- The entry for a list of states.
abbrev pub summary : List Health → Option KindStat
summary [] = none
summary (h ∷ hs) = some (record { count = length (h ∷ hs); worst = worst_non_healthy (h ∷ hs) })

-- The nodes that the chips count: the drawn ones, and what a folded pill hides.
unfoldable pub represented : List PositionedNode → List KNode
represented [] = []
represented (n ∷ ns) =
    (elim n.collapse [
      | none ↦ n.node ∷ []
      | some m ↦ if m.expanded then [] else m.hidden ++ or_empty m.hidden_descendants
    ])
    ++ represented ns

worst_from-append :
    (w : Option Health) (hs ks : List Health)
    → worst_from w (hs ++ ks) ≡ worst_from (worst_from w hs) ks
unfolding worst_from
worst_from-append w [] ks = refl
worst_from-append w (h ∷ hs) ks = worst_from-append (worse w h) hs ks

-- The worst state so far stands for the states that it was taken from.
worst_so_far :
    (o : Option Health) (h : Health)
    → ((w : Health) → o ≡ some w → w ≢ Health.healthy)
    → worst_non_healthy (elim o [ none ↦ h ∷ [] | some w ↦ w ∷ h ∷ [] ]) ≡ worse o h
unfolding worst_non_healthy worst_from worse
worst_so_far none h ill = refl
worst_so_far (some w) h ill = ground (arith, ill w refl, health_beq_iff w Health.healthy)

worst-ill : (hs : List Health) (w : Health) → worst_non_healthy hs ≡ some w → w ≢ Health.healthy
worst-ill hs w h = (subst (IsWorst hs) h (worst_non_healthy-IsWorst hs)).1

worst-snoc :
    (hs : List Health) (h : Health)
    → worst_non_healthy (hs ++ h ∷ []) ≡ worse (worst_non_healthy hs) h
unfolding worst_non_healthy worst_from
worst-snoc hs h = worst_from-append none hs (h ∷ [])

bump-summary : (hs : List Health) (h : Health) → some (bump (summary hs) h) ≡ summary (hs ++ h ∷ [])
unfolding bump
bump-summary [] h = refl
bump-summary (x ∷ hs) h = ground (
  arith,
  worst_so_far (worst_non_healthy (x ∷ hs)) h (worst-ill (x ∷ hs)),
  worst-snoc (x ∷ hs) h,
  length-append hs (h ∷ []),
)

-- What one more node does to the entries.
Holds : List (Text × KindStat) → List KNode → Type 0
Holds stats seen = (k : Text) → lookup k stats ≡ summary (healths k seen)

healths-append :
    (k : Text) (ns ms : List KNode) → healths k (ns ++ ms) ≡ healths k ns ++ healths k ms
healths-append k [] ms = refl
healths-append k (n ∷ ns) ms = ground (arith, healths-append k ns ms)

add_stat-Holds :
    (n : KNode) (stats : List (Text × KindStat)) (seen : List KNode)
    → Holds stats seen
    → Holds (add_stat n stats) (seen ++ n ∷ [])
unfolding Holds add_stat
add_stat-Holds n stats seen h k = ground (
  arith,
  lookup-insert n.kind k (bump (lookup n.kind stats) n.health) stats,
  h k,
  ==_iff n.kind k,
  healths-append k seen (n ∷ []),
  bump-summary (healths k seen) n.health,
  append-nil (healths k seen),
)

add_all-Holds :
    (ns : List KNode) (stats : List (Text × KindStat)) (seen : List KNode)
    → Holds stats seen
    → Holds (add_all ns stats) (seen ++ ns)
unfolding add_all
add_all-Holds [] stats seen h = subst (Holds stats) (sym (append-nil seen)) h
add_all-Holds (n ∷ ns) stats seen h =
    subst (Holds (add_all ns (add_stat n stats))) (append_assoc seen (n ∷ []) ns)
      (add_all-Holds ns (add_stat n stats) (seen ++ n ∷ []) (add_stat-Holds n stats seen h))

abbrev pub counted : PositionedNode → List KNode
counted n = elim n.collapse [
  | none ↦ n.node ∷ []
  | some m ↦ if m.expanded then [] else m.hidden ++ or_empty m.hidden_descendants
]

count_drawn-Holds :
    (n : PositionedNode) (stats : List (Text × KindStat)) (seen : List KNode)
    → Holds stats seen
    → Holds (count_drawn n stats) (seen ++ counted n)
unfolding count_drawn
count_drawn-Holds n stats seen h = elim (Option-cases n.collapse) [
  | inl card ↦ rw card (add_stat-Holds n.node stats seen h)
  | inr (m, pill) ↦ elim (Bool-cases m.expanded) [
    | inl open_pill ↦ rw (pill, open_pill) (subst (Holds stats) (sym (append-nil seen)) h)
    | inr shut_pill ↦
        rw (pill, shut_pill)
          (subst (Holds (add_all (or_empty m.hidden_descendants) (add_all m.hidden stats)))
            (append_assoc seen m.hidden (or_empty m.hidden_descendants))
            (add_all-Holds (or_empty m.hidden_descendants) (add_all m.hidden stats)
              (seen ++ m.hidden) (add_all-Holds m.hidden stats seen h)))
  ]
]

count_all-Holds :
    (ns : List PositionedNode) (stats : List (Text × KindStat)) (seen : List KNode)
    → Holds stats seen
    → Holds (count_all ns stats) (seen ++ represented ns)
unfolding count_all represented
count_all-Holds [] stats seen h = subst (Holds stats) (sym (append-nil seen)) h
count_all-Holds (n ∷ ns) stats seen h =
    subst (Holds (count_all ns (count_drawn n stats)))
      (append_assoc seen (counted n) (represented ns))
      (count_all-Holds ns (count_drawn n stats) (seen ++ counted n)
        (count_drawn-Holds n stats seen h))

-- Each entry is what the drawn nodes and the nodes of the folded pills give for its kind.
pub kind_stats_lem :
    (nodes : List PositionedNode) (k : Text)
    → lookup k (kind_stats nodes) ≡ summary (healths k (represented nodes))
unfolding kind_stats Holds lookup
kind_stats_lem nodes k = count_all-Holds nodes [] [] (λ j. refl) k

-- As often, and the same states.
abbrev Alike : List Health → List Health → Type 0
Alike hs ks = (length hs ≡ length ks) × ((h : Health) → contains hs h ≡ contains ks h)

count_one : Text → KNode → ℕ → ℕ
count_one k n rest = if n.kind == k then suc rest else rest

is_of : Text → Health → KNode → Bool → Bool
is_of k h n rest = n.kind == k && n.health == h || rest

length-healths : (k : Text) (ns : List KNode) → foldr (count_one k) 0 ns ≡ length (healths k ns)
unfolding count_one
length-healths k [] = refl
length-healths k (n ∷ ns) = ground (arith, length-healths k ns)

contains-healths :
    (k : Text) (h : Health) (ns : List KNode)
    → foldr (is_of k h) false ns ≡ contains (healths k ns) h
unfolding is_of contains
contains-healths k h [] = refl
contains-healths k h (n ∷ ns) = ground (arith, contains-healths k h ns)

count_one_comm :
    (k : Text) (n m : KNode) (c : ℕ)
    → count_one k n (count_one k m c) ≡ count_one k m (count_one k n c)
unfolding count_one
count_one_comm k n m c = ground arith

is_of_comm :
    (k : Text) (h : Health) (n m : KNode) (b : Bool)
    → is_of k h n (is_of k h m b) ≡ is_of k h m (is_of k h n b)
unfolding is_of
is_of_comm k h n m b = ground arith

permuted : (k : Text) (ns ms : List KNode) → Perm ns ms → Alike (healths k ns) (healths k ms)
permuted k ns ms p = (
  sym (length-healths k ns)
      ∙ Perm.foldr-eq ℕ_set (count_one k) (count_one_comm k) p 0
      ∙ length-healths k ms,
  λ h.
      sym (contains-healths k h ns)
      ∙ Perm.foldr-eq Bool-set (is_of k h) (is_of_comm k h) p false
      ∙ contains-healths k h ms,
)

summary-Alike : (hs ks : List Health) → Alike hs ks → summary hs ≡ summary ks
summary-Alike [] [] a = refl
summary-Alike [] (k ∷ ks) a = absurd (omega (arith, a.0))
summary-Alike (h ∷ hs) [] a = absurd (omega (arith, a.0))
summary-Alike (h ∷ hs) (k ∷ ks) (l, c) = ground (
  arith,
  worst_non_healthy_congr (h ∷ hs) (k ∷ ks) (λ x ill m. sym (c x) ∙ m) (λ x ill m. c x ∙ m),
)

-- Entries depend only on which nodes are stood for, not on their order.
pub represented-same :
    (xs ys : List PositionedNode)
    → Perm (represented xs) (represented ys)
    → (k : Text) → lookup k (kind_stats xs) ≡ lookup k (kind_stats ys)
represented-same xs ys p k =
    kind_stats_lem xs k
    ∙ summary-Alike _ _ (permuted k (represented xs) (represented ys) p)
    ∙ sym (kind_stats_lem ys k)
