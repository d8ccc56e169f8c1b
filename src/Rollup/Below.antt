-- ===== src/Rollup/Below.antt =====
-- The nodes below a resource, and the nodes of one owner (web/src/loggable.ts).
use kd.Common.{
  ℕ, zero, suc, ◌≡◌, refl, sym, subst, Bool, true, false, not, ◌&&◌, some, List, [], ◌∷◌, ◌++◌,
  Text, text, text_eq, ◌==◌, contains, arith, Bool-cases, inl, inr, All, All-mono, All-append, any,
  Occurs, get_elem?,
}
use kd.Types.{KNode, or_empty}
use kd.Rollup.Rounds.{kids, copies}

abbrev pub is_pod : KNode → Bool
is_pod n = n.kind == text "Pod"

-- The node names the owner.
abbrev pub owned_by : Text → KNode → Bool
owned_by u n = contains (or_empty n.owner_uids) u

-- The nodes below the root: owned by it, or by a node below it that is no pod. What only a pod owns is
-- not below.
pub data Below (nodes : List KNode) (root : Text) : KNode → Type 0 where
  child : {n : KNode} → Occurs n nodes → owned_by root n ≡ true → Below nodes root n
  under :
      {m n : KNode}
      → Below nodes root m
      → is_pod m ≡ false
      → Occurs n nodes
      → owned_by m.id n ≡ true
      → Below nodes root n

pub there : {nodes : List KNode} {root : Text} {n : KNode} → Below nodes root n → Occurs n nodes
there (child o owned) = o
there (under below other o owned) = o

-- Some node of that id is no pod.
abbrev pub has_inner : List KNode → Text → Bool
has_inner nodes u = any (λ m. m.id == u && not (is_pod m)) nodes

-- No id is that of a pod and of another resource.
abbrev pub IsTyped : List KNode → Type 0
IsTyped nodes = All (λ n. is_pod n ≡ true → has_inner nodes n.id ≡ false) nodes

pub any-Occurs :
    {A : Type 0} (p : A → Bool) (xs : List A) (i : ℕ) (x : A)
    → get_elem? xs i ≡ some x
    → p x ≡ true
    → any p xs ≡ true
any-Occurs p [] i x at h = cc
any-Occurs p (y ∷ ys) zero x at h = let same : y ≡ x = cc in rw same (rw h refl)
any-Occurs p (y ∷ ys) (suc i) x at h = ground (arith, any-Occurs p ys i x at h)

pub copies-owned :
    (u : Text) (n : KNode) (os : List Text)
    → contains os u ≡ true
    → (rest : List KNode) × (copies u n os ≡ n ∷ rest)
unfolding contains
copies-owned u n [] h = cc
copies-owned u n (o ∷ os) h = elim (Bool-cases (o == u)) [
  | inl same ↦ (copies u n os, rw same refl)
  | inr other ↦ let (rest, e) = copies-owned u n os (ground arith) in (rest, rw other e)
]

pub copies-All_owned :
    (u : Text) (n : KNode) (os : List Text)
    → All (λ m. (m ≡ n) × (contains os u ≡ true)) (copies u n os)
unfolding contains
copies-All_owned u n [] = tt
copies-All_owned u n (o ∷ os) = elim (Bool-cases (o == u)) [
  | inl same ↦
      rw same
        ((refl, refl), All-mono (copies u n os) (λ m h. (h.0, refl)) (copies-All_owned u n os))
  | inr other ↦ rw other (copies-All_owned u n os)
]

pub All-left {ℓ} : (P : KNode → Type ℓ) (xs ys : List KNode) → All P (xs ++ ys) → All P xs
All-left P [] ys h = tt
All-left P (x ∷ xs) ys h = (h.0, All-left P xs ys h.1)

pub All-right {ℓ} : (P : KNode → Type ℓ) (xs ys : List KNode) → All P (xs ++ ys) → All P ys
All-right P [] ys h = h
All-right P (x ∷ xs) ys h = All-right P xs ys h.1

-- What holds of the nodes of an owner holds of each node that names it.
pub kids-reach {ℓ} :
    (P : KNode → Type ℓ) (u : Text) (ns : List KNode)
    → All P (kids u ns)
    → All (λ n. owned_by u n ≡ true → P n) ns
kids-reach P u [] h = tt
kids-reach P u (n ∷ ns) h = (
  λ owned.
      let (rest, e) = copies-owned u n (or_empty n.owner_uids) owned in
      (subst (All P) e (All-left P (copies u n (or_empty n.owner_uids)) (kids u ns) h)).0,
  kids-reach P u ns (All-right P (copies u n (or_empty n.owner_uids)) (kids u ns) h),
)

pub kids-owned : (u : Text) (ns : List KNode) → All (λ m. owned_by u m ≡ true) (kids u ns)
kids-owned u [] = tt
kids-owned u (n ∷ ns) =
    All-append _ (copies u n (or_empty n.owner_uids)) _
      (All-mono _ (λ m h. subst (λ (x : KNode). owned_by u x ≡ true) (sym h.0) h.1)
        (copies-All_owned u n (or_empty n.owner_uids)))
      (kids-owned u ns)
