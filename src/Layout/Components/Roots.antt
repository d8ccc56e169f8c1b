-- ===== src/Layout/Components/Roots.antt =====
-- What `find` and `union` do to the roots (web/src/layout/relationship.ts).
use kd.Common.{
  ℕ, zero, suc, ◌≡◌, refl, sym, ap, ◌∙◌, subst, true, false, some, Text, text_eq, ◌==◌,
  if◌then◌else◌, lookup, lookup-insert, insert, arith, Bool-cases, Option-cases, inl, inr,
  text_beq_iff, ==_refl, ==_iff,
}
use kd.Layout.Components.{Parents, climb, compress, find}

pub climb-root : (k : ℕ) (p : Parents) (x r : Text) → climb k p x ≡ some r → lookup r p ≡ some r
unfolding climb
climb-root zero p x r h = elim (Option-cases (lookup x p)) [
  | inl gone ↦ ground arith
  | inr (up, at) ↦ ground (arith, text_beq_iff up x)
]
climb-root (suc k) p x r h = elim (Option-cases (lookup x p)) [
  | inl gone ↦ ground arith
  | inr (up, at) ↦ ground (arith, text_beq_iff up x, climb-root k p up r)
]

pub root-climb : (k : ℕ) (p : Parents) (r : Text) → lookup r p ≡ some r → climb k p r ≡ some r
unfolding climb
root-climb zero p r h = ground (arith, ==_refl r)
root-climb (suc k) p r h = ground (arith, ==_refl r)

-- More fuel gives the same root.
pub climb_unique :
    (k j : ℕ) (p : Parents) (x r s : Text) → climb k p x ≡ some r → climb j p x ≡ some s → r ≡ s
unfolding climb
climb_unique zero zero p x r s h g = cc
climb_unique zero (suc j) p x r s h g = ground arith
climb_unique (suc k) zero p x r s h g = ground arith
climb_unique (suc k) (suc j) p x r s h g = elim (Option-cases (lookup x p)) [
  | inl gone ↦ ground arith
  | inr (up, at) ↦ ground (arith, climb_unique k j p up r s)
]

-- The ids that climb within `k` steps, and where to.
abbrev pub Keeps : Parents → Parents → Type 0
Keeps p q = (k : ℕ) (y s : Text) → climb k p y ≡ some s → climb k q y ≡ some s

hung : (p : Parents) (x y r : Text) → (x == y) ≡ true → lookup y (insert x r p) ≡ some r
hung p x y r same = ground (arith, lookup-insert x y r p)

unhung : (p : Parents) (x y r : Text) → (x == y) ≡ false → lookup y (insert x r p) ≡ lookup y p
unhung p x y r other = ground (arith, lookup-insert x y r p)

-- A root stays one when another id is hung under it.
root-hung : (p : Parents) (x r : Text) → lookup r p ≡ some r → lookup r (insert x r p) ≡ some r
root-hung p x r h = ground (arith, lookup-insert x r r p)

-- The step from an id that is hung under a root.
climb-hung :
    (k : ℕ) (q : Parents) (y r : Text)
    → lookup y q ≡ some r
    → lookup r q ≡ some r
    → climb (suc k) q y ≡ some r
unfolding climb
climb-hung k q y r h root = ground (arith, root-climb k q r root, text_beq_iff r y)

hang-Keeps : (p : Parents) (x r : Text) (j : ℕ) → climb j p x ≡ some r → Keeps p (insert x r p)
unfolding climb
hang-Keeps p x r j h zero y s g = elim (Bool-cases (x == y)) [
  | inl same ↦
      let e : r ≡ s =
        climb_unique j zero p x r s h
          (subst (λ t. climb zero p t ≡ some s) (sym ((==_iff x y).0 same)) g) in
      let up = hung p x y r same in
      let is_self : s ≡ y = ground (arith, text_beq_iff s y) in
      root-climb zero (insert x r p) y (up ∙ ap some (e ∙ is_self)) ∙ ap some (sym is_self)
  | inr other ↦ ground (arith, unhung p x y r other)
]
hang-Keeps p x r j h (suc k) y s g = elim (Bool-cases (x == y)) [
  | inl same ↦
      let e : r ≡ s =
        climb_unique j (suc k) p x r s h
          (subst (λ t. climb (suc k) p t ≡ some s) (sym ((==_iff x y).0 same)) g) in
      climb-hung k (insert x r p) y r (hung p x y r same) (root-hung p x r (climb-root j p x r h))
      ∙ ap some e
  | inr other ↦ elim (Option-cases (lookup y p)) [
    | inl gone ↦ ground arith
    | inr (up, at) ↦ ground (arith, unhung p x y r other, hang-Keeps p x r j h k up s)
  ]
]

Keeps-refl : (p : Parents) → Keeps p p
Keeps-refl p k y s g = g

-- With the fuel that the climb had, the second loop ends, and leaves each root.
compress-Keeps :
    (k : ℕ) (p : Parents) (x r : Text)
    → climb k p x ≡ some r
    → (q : Parents) × (compress k r p x ≡ some q) × Keeps p q
unfolding climb compress
compress-Keeps zero p x r h = elim (Option-cases (lookup x p)) [
  | inl gone ↦ absurd (ground arith)
  | inr (up, at) ↦ (p, ground (arith, at, h), Keeps-refl p)
]
compress-Keeps (suc k) p x r h = elim (Option-cases (lookup x p)) [
  | inl gone ↦ absurd (ground arith)
  | inr (up, at) ↦ elim (Bool-cases (up == r)) [
    | inl below ↦ (p, ground (arith, at, below), Keeps-refl p)
    | inr far ↦
        let further : climb k p up ≡ some r =
          ground (arith, text_beq_iff up x, text_beq_iff up r) in
        let keeps = hang-Keeps p x r (suc k) h in
        let (q, e, more) = compress-Keeps k (insert x r p) up r (keeps k up r further) in
        (q, ground (arith, at, far, e), λ j y s g. more j y s (keeps j y s g))
  ]
]

pub find-Keeps :
    (k : ℕ) (p : Parents) (x r : Text)
    → climb k p x ≡ some r
    → (q : Parents) × (find k x p ≡ some (r, q)) × Keeps p q
unfolding find
find-Keeps k p x r h =
    let (q, e, keeps) = compress-Keeps k p x r h in (q, rw (h, find) (rw e refl), keeps)

-- Where an id climbs to when the root `a` is hung under the root `b`.
abbrev pub moved : Text → Text → Text → Text
moved a b s = if s == a then b else s

root-linked :
    (k : ℕ) (p : Parents) (a b y : Text)
    → lookup b p ≡ some b
    → lookup y p ≡ some y
    → climb (suc k) (insert a b p) y ≡ some (moved a b y)
root-linked k p a b y root_b root_y = elim (Bool-cases (a == y)) [
  | inl same ↦
      climb-hung k (insert a b p) y b (hung p a y b same) (root-hung p a b root_b)
      ∙ ap some (ground (arith, text_beq_iff a y, text_beq_iff y a))
  | inr other ↦
      root-climb (suc k) (insert a b p) y (unhung p a y b other ∙ root_y)
      ∙ ap some (ground (arith, text_beq_iff a y, text_beq_iff y a))
]

not_root :
    (p : Parents) (a y up : Text)
    → lookup a p ≡ some a
    → lookup y p ≡ some up
    → (up == y) ≡ false
    → (a == y) ≡ false
not_root p a y up root at below = elim (Bool-cases (a == y)) [
  | inl same ↦
      let e : some up ≡ some y =
        sym at ∙ subst (λ t. lookup t p ≡ some t) ((==_iff a y).0 same) root in
      absurd (ground (arith, text_beq_iff up y))
  | inr other ↦ other
]

climb-here :
    (k : ℕ) (p : Parents) (y s up : Text)
    → lookup y p ≡ some up
    → (up == y) ≡ true
    → climb k p y ≡ some s
    → y ≡ s
unfolding climb
climb-here zero p y s up at here g = ground arith
climb-here (suc k) p y s up at here g = ground arith

pub climb-only : (p : Parents) (y s : Text) → climb zero p y ≡ some s → y ≡ s
unfolding climb
climb-only p y s g = elim (Option-cases (lookup y p)) [
  | inl gone ↦ absurd (ground arith)
  | inr (up, at) ↦ ground arith
]

pub climb-linked :
    (k : ℕ) (p : Parents) (a b y s : Text)
    → lookup a p ≡ some a
    → lookup b p ≡ some b
    → climb k p y ≡ some s
    → climb (suc k) (insert a b p) y ≡ some (moved a b s)
unfolding climb
climb-linked zero p a b y s root_a root_b g =
    let is_root = climb-root zero p y s g in
    let own : y ≡ s = climb-only p y s g in
    subst (λ t. climb 1 (insert a b p) y ≡ some (moved a b t)) own
      (root-linked zero p a b y root_b (subst (λ t. lookup t p ≡ some t) (sym own) is_root))
climb-linked (suc k) p a b y s root_a root_b g = elim (Option-cases (lookup y p)) [
  | inl gone ↦ ground arith
  | inr (up, at) ↦ elim (Bool-cases (up == y)) [
    | inl is_root ↦
        let own = climb-here (suc k) p y s up at is_root g in
        subst (λ t. climb (suc (suc k)) (insert a b p) y ≡ some (moved a b t)) own
          (root-linked (suc k) p a b y root_b (at ∙ ap some ((==_iff up y).0 is_root)))
    | inr below ↦
        let other : (a == y) ≡ false = not_root p a y up root_a at below in
        let further : climb k p up ≡ some s = ground arith in
        ground (arith, unhung p a y b other, climb-linked k p a b up s root_a root_b further)
  ]
]
