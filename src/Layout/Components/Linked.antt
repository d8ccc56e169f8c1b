-- ===== src/Layout/Components/Linked.antt =====
-- Two nodes have one root exactly if edges link them (web/src/layout/relationship.ts).
use kd.Common.{
  ℕ, zero, suc, ◌+◌, ◌-◌, ◌≤◌, ◌≡◌, refl, sym, ap, ◌∙◌, subst, true, ◌⊎◌, inl, inr, some, List, [],
  ◌∷◌, Text, text_eq, ◌==◌, lookup, insert, contains, length, arith, All, Bool-cases, Option-cases,
  ==_iff, ==_refl, Occurs, get_elem?-All,
}
use kd.Types.{KEdge}
use kd.Layout.Components.{Parents, climb, union, unite}
use kd.Layout.Components.Roots.{climb-root, climb_unique, find-Keeps, moved, climb-linked}

-- A path of edges, in either direction.
pub data Linked (edges : List KEdge) : Text → Text → Type 0 where
  same : {x : Text} → Linked edges x x
  along : {e : KEdge} → Occurs e edges → Linked edges e.from e.to
  back : {x y : Text} → Linked edges x y → Linked edges y x
  chain : {x y z : Text} → Linked edges x y → Linked edges y z → Linked edges x z

climb-suc : (k : ℕ) (p : Parents) (x r : Text) → climb k p x ≡ some r → climb (suc k) p x ≡ some r
unfolding climb
climb-suc zero p x r h = elim (Option-cases (lookup x p)) [
  | inl gone ↦ ground arith
  | inr (up, at) ↦ ground arith
]
climb-suc (suc k) p x r h = elim (Option-cases (lookup x p)) [
  | inl gone ↦ ground arith
  | inr (up, at) ↦ ground (arith, climb-suc k p up r)
]

climb-more :
    (d k : ℕ) (p : Parents) (x r : Text) → climb k p x ≡ some r → climb (d + k) p x ≡ some r
climb-more zero k p x r h = subst (λ j. climb j p x ≡ some r) (omega arith) h
climb-more (suc d) k p x r h =
    subst (λ j. climb j p x ≡ some r) (omega arith)
      (climb-suc (d + k) p x r (climb-more d k p x r h))

pub climb-within :
    (k fuel : ℕ) (p : Parents) (x r : Text)
    → k ≤ fuel
    → climb k p x ≡ some r
    → climb fuel p x ≡ some r
climb-within k fuel p x r le h =
    subst (λ j. climb j p x ≡ some r) (omega (arith, le)) (climb-more (fuel - k) k p x r h)

abbrev pub OneRoot : ℕ → Parents → Text → Text → Type 0
OneRoot k p x y = (r : Text) × (climb k p x ≡ some r) × (climb k p y ≡ some r)

module _ (ids : List Text) (edges : List KEdge) where
  -- Each node climbs to a root within `k` steps, and nodes with one root are linked.
  pub record IsForest (k : ℕ) (p : Parents) : Type 0 where
    pub rooted : (x : Text) → contains ids x ≡ true → (r : Text) × (climb k p x ≡ some r)
    pub sound :
        (x y r : Text)
        → contains ids x ≡ true
        → contains ids y ≡ true
        → climb k p x ≡ some r
        → climb k p y ≡ some r
        → Linked edges x y

  -- Nodes whose roots meet once the root of an edge's source is hung under that of its target.
  merged :
      (k : ℕ) (p : Parents) (e : KEdge) (a b x y s u : Text)
      → IsForest k p
      → Occurs e edges
      → contains ids e.from ≡ true
      → contains ids e.to ≡ true
      → climb k p e.from ≡ some a
      → climb k p e.to ≡ some b
      → contains ids x ≡ true
      → contains ids y ≡ true
      → climb k p x ≡ some s
      → climb k p y ≡ some u
      → moved a b s ≡ moved a b u
      → Linked edges x y
  merged k p e a b x y s u forest there has_from has_to to_a to_b has_x has_y to_s to_u meet =
      elim (Bool-cases (s == a)) [
        | inl s_is_a ↦ elim (Bool-cases (u == a)) [
          | inl u_is_a ↦
              forest.sound x y a has_x has_y (to_s ∙ ap some ((==_iff s a).0 s_is_a))
                (to_u ∙ ap some ((==_iff u a).0 u_is_a))
          | inr u_other ↦
              let u_is_b : u ≡ b = ground arith in
              across x y (to_s ∙ ap some ((==_iff s a).0 s_is_a)) (to_u ∙ ap some u_is_b) has_x
                has_y
        ]
        | inr s_other ↦ elim (Bool-cases (u == a)) [
          | inl u_is_a ↦
              let s_is_b : s ≡ b = ground arith in
              Linked.back (
                across y x (to_u ∙ ap some ((==_iff u a).0 u_is_a)) (to_s ∙ ap some s_is_b) has_y
                  has_x)
          | inr u_other ↦
              let s_is_u : s ≡ u = ground arith in
              forest.sound x y u has_x has_y (to_s ∙ ap some s_is_u) to_u
        ]
      ]
    where
      across :
          (v w : Text)
          → climb k p v ≡ some a
          → climb k p w ≡ some b
          → contains ids v ≡ true
          → contains ids w ≡ true
          → Linked edges v w
      across v w to_v to_w has_v has_w =
          Linked.chain (forest.sound v e.from a has_v has_from to_v to_a)
            (Linked.chain (Linked.along there) (forest.sound e.to w b has_to has_w to_b to_w))

  -- What a change of the forest keeps.
  abbrev pub Joins : ℕ → Parents → ℕ → Parents → Type 0
  Joins k p j q = (x y : Text) → OneRoot k p x y → OneRoot j q x y

  union-IsForest :
      (k fuel : ℕ) (p : Parents) (e : KEdge)
      → k ≤ fuel
      → IsForest k p
      → Occurs e edges
      → contains ids e.from ≡ true
      → contains ids e.to ≡ true
      → (q : Parents) × (union fuel e.from e.to p ≡ some q)
        × IsForest (suc k) q
        × Joins k p (suc k) q
        × OneRoot (suc k) q e.from e.to
  unfolding union
  union-IsForest k fuel p e le forest there has_from has_to =
      let (a, to_a) = forest.rooted e.from has_from in
      let (b, to_b) = forest.rooted e.to has_to in
      let (q, find_a, keeps_q) =
        find-Keeps fuel p e.from a (climb-within k fuel p e.from a le to_a) in
      let (t, find_b, keeps_t) =
        find-Keeps fuel q e.to b (climb-within k fuel q e.to b le (keeps_q k e.to b to_b)) in
      let kept : (x r : Text) → climb k p x ≡ some r → climb k t x ≡ some r =
        λ x r h. keeps_t k x r (keeps_q k x r h) in
      let linked : (x r : Text)
          → climb k p x ≡ some r
          → climb (suc k) (insert a b t) x ≡ some (moved a b r) =
        λ x r h.
          climb-linked k t a b x r (climb-root k t e.from a (kept e.from a to_a))
            (climb-root k t e.to b (kept e.to b to_b)) (kept x r h) in
      (
        insert a b t,
        rw (find_a, union) (rw find_b refl),
        record {
          rooted = λ x has. let (r, to_r) = forest.rooted x has in (moved a b r, linked x r to_r);
          sound = λ x y r has_x has_y up_x up_y.
              let (s, to_s) = forest.rooted x has_x in
              let (u, to_u) = forest.rooted y has_y in
              merged k p e a b x y s u forest there has_from has_to to_a to_b has_x has_y to_s to_u
                (climb_unique (suc k) (suc k) (insert a b t) x _ r (linked x s to_s) up_x
                  ∙ sym (climb_unique (suc k) (suc k) (insert a b t) y _ r (linked y u to_u) up_y));
        },
        λ x y (r, at_x, at_y). (moved a b r, linked x r at_x, linked y r at_y),
        (
          b,
          linked e.from a to_a ∙ ap some (ground (arith, ==_refl a)),
          linked e.to b to_b ∙ ap some (ground arith),
        ),
      )

  -- What an edge needs for its two calls of `find`.
  abbrev pub IsLaid : KEdge → Type 0
  IsLaid e = Occurs e edges × (contains ids e.from ≡ true) × (contains ids e.to ≡ true)

  pub unite-IsForest :
      (es : List KEdge) (k fuel : ℕ) (p : Parents)
      → k + length es ≤ fuel
      → IsForest k p
      → All IsLaid es
      → (j : ℕ) × (q : Parents) × (unite fuel es p ≡ some q)
        × (j ≤ fuel)
        × IsForest j q
        × Joins k p j q
        × All (λ e. OneRoot j q e.from e.to) es
  unfolding unite
  unite-IsForest [] k fuel p le forest laid =
      (k, p, refl, omega (arith, le), forest, λ x y h. h, tt)
  unite-IsForest (e ∷ es) k fuel p le forest (laid, laids) =
      let (t, united, forest_t, joins_t, one) =
        union-IsForest k fuel p e (omega (arith, le)) forest laid.0 laid.1 laid.2 in
      let (j, q, rest, within, forest_q, joins_q, ones) =
        unite-IsForest es (suc k) fuel t (omega (arith, le)) forest_t laids in
      (
        j,
        q,
        rw (united, unite) rest,
        within,
        forest_q,
        λ x y h. joins_q x y (joins_t x y h),
        (joins_q e.from e.to one, ones),
      )

  -- Linked nodes have one root once all edges are united.
  pub linked-OneRoot :
      (k : ℕ) (p : Parents) (x y : Text)
      → All (λ e. OneRoot k p e.from e.to) edges
      → Linked edges x y
      → (x ≡ y) ⊎ OneRoot k p x y
  linked-OneRoot k p x y ones Linked.same = inl refl
  linked-OneRoot k p x y ones (Linked.along {e} (i, at)) =
      inr (get_elem?-All (λ e. OneRoot k p e.from e.to) edges i e at ones)
  linked-OneRoot k p x y ones (Linked.back path) = elim (linked-OneRoot k p y x ones path) [
    | inl equal ↦ inl (sym equal)
    | inr (r, up_y, up_x) ↦ inr (r, up_x, up_y)
  ]
  linked-OneRoot k p x z ones (Linked.chain {y = y} first second) =
      elim (linked-OneRoot k p x y ones first) [
        | inl equal ↦
            subst (λ t. (t ≡ z) ⊎ OneRoot k p t z) (sym equal) (linked-OneRoot k p y z ones second)
        | inr (r, up_x, up_y) ↦ elim (linked-OneRoot k p y z ones second) [
          | inl equal ↦ inr (r, up_x, subst (λ t. climb k p t ≡ some r) equal up_y)
          | inr (s, down_y, up_z) ↦
              let e = climb_unique k k p y r s up_y down_y in inr (r, up_x, up_z ∙ ap some (sym e))
        ]
      ]
