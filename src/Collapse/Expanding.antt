-- ===== src/Collapse/Expanding.antt =====
-- Expanding a fold of web/src/layout/collapse.ts only fills the gap at the pill.
use mathlib.Core.List.{Perm, perm_middle}
use mathlib.Core.List.Perm
use kd.Common.{
  ℕ, suc, ◌+◌, ◌-◌, ◌≤◌, ◌≡◌, refl, sym, ap, ◌∙◌, Bool, true, false, not, ◌⊎◌, inl, inr, Option,
  List, [], ◌∷◌, ◌++◌, append-nil, text_eq, ltb, filter, length, length-take, take, drop,
  take-append-drop, take_all, contains, Ordering, sort, sort-perm, arith, Bool-cases, Option-cases,
  subst, length-append,
}
use kd.Types.{KNode}
use kd.Collapse.{
  Fold, whole, floated, fold_floated, fold_middle, match_set_of, split_for_fold, collapse_visible,
  collapse_min_hidden,
}

-- The cards in the gap, put where the pill stands.
abbrev pub refilled : Fold → List KNode
refilled f = take f.pill_index f.visible ++ (f.hidden ++ drop f.pill_index f.visible)

-- A folded and an unfolded cluster agree: filling the gap of the one gives the other.
abbrev Agree : Fold → Fold → Type 0
Agree folded unfolded =
    (refilled folded ≡ unfolded.visible)
    × (folded.hidden ≡ unfolded.hidden)
    × ((folded.hidden ≡ []) ⊎ (collapse_min_hidden ≤ length folded.hidden))

take_whole : {A : Type 0} (xs : List A) → take (length xs) xs ≡ xs
take_whole xs = take_all (length xs) xs (omega arith)

drop_whole : {A : Type 0} (xs : List A) → drop (length xs) xs ≡ []
drop_whole [] = refl
drop_whole (x ∷ xs) = drop_whole xs

whole-Agree : (ns : List KNode) → Agree (whole ns []) (whole ns [])
whole-Agree ns = (rw (take_whole ns) (rw (drop_whole ns) (append-nil ns)), refl, inl refl)

floated-Agree :
    (ns : List KNode)
    → collapse_visible + collapse_min_hidden ≤ length ns
    → Agree (fold_floated false ns) (fold_floated true ns)
floated-Agree [] h = absurd (omega arith)
floated-Agree (_ ∷ []) h = absurd (omega arith)
floated-Agree (_ ∷ _ ∷ []) h = absurd (omega arith)
floated-Agree (a ∷ b ∷ c ∷ ns) h =
    (ap (λ l. a ∷ b ∷ c ∷ l) (append-nil ns), refl, inr (omega arith))

middle-Agree :
    (ns : List KNode)
    → collapse_visible + collapse_min_hidden ≤ length ns
    → Agree (fold_middle false ns) (fold_middle true ns)
middle-Agree [] h = absurd (omega arith)
middle-Agree (n ∷ ns) h =
    let k = suc (length ns) - 2 - 1 in
    let last : suc (length ns) - 2 ≡ suc k = omega arith in
    (
      ap (λ (j : ℕ). n ∷ (take k ns ++ drop j (n ∷ ns))) last
          ∙ ap (λ l. n ∷ l) (take-append-drop k ns),
      refl,
      inr (omega (arith, length-take k ns)),
    )

parts-perm :
    (p : KNode → Bool) (ns : List KNode) → Perm (filter p ns ++ filter (λ n. not (p n)) ns) ns
parts-perm p [] = Perm.refl []
parts-perm p (n ∷ ns) = elim (Bool-cases (p n)) [
  | inl h ↦ rw h (Perm.cons n (parts-perm p ns))
  | inr h ↦ rw h (
      Perm.trans (perm_middle (filter p ns) (filter (λ m. not (p m)) ns))
        (Perm.cons n (parts-perm p ns)))
]

parts-length :
    (p : KNode → Bool) (ns : List KNode)
    → length (filter p ns ++ filter (λ n. not (p n)) ns) ≡ length ns
parts-length p [] = refl
parts-length p (n ∷ ns) = elim (Bool-cases (p n)) [
  | inl h ↦ rw h (ap suc (parts-length p ns))
  | inr h ↦ rw h (
      omega (
        arith,
        parts-length p ns,
        length-append (filter p ns) (filter (λ m. not (p m)) ns),
        length-append (filter p ns) (n ∷ filter (λ m. not (p m)) ns),
      ))
]

-- The two states of a fold agree, and the unfolded one shows the nodes.
abbrev pub Expands : Fold → Fold → List KNode → Type 0
Expands folded unfolded nodes =
    (refilled folded ≡ unfolded.visible)
    × (folded.hidden ≡ unfolded.hidden)
    × ((folded.hidden ≡ []) ⊎ (collapse_min_hidden ≤ length folded.hidden))
    × Perm unfolded.visible nodes

as_computed :
    (f g f' g' : Fold) (nodes : List KNode)
    → f ≡ f'
    → g ≡ g'
    → Agree f' g'
    → Perm g'.visible nodes
    → Expands f g nodes
as_computed f g f' g' nodes e d (a, b, c) p =
    subst (λ x. Expands x g nodes) (sym e) (subst (λ y. Expands f' y nodes) (sym d) (a, b, c, p))

module _ (cmp : KNode → KNode → Ordering) where
  -- Which of its three shapes a fold has, the same one folded and unfolded.
  split_for_fold-cases :
      (nodes : List KNode) (prioritize : Option (KNode → Bool))
      → ((b : Bool) → split_for_fold cmp nodes b prioritize ≡ whole (sort cmp nodes) [])
        ⊎ ((ns : List KNode) × Perm ns nodes
            × (5 ≤ length ns)
            × (((b : Bool) → split_for_fold cmp nodes b prioritize ≡ fold_floated b ns)
                ⊎ ((b : Bool) → split_for_fold cmp nodes b prioritize ≡ fold_middle b ns)))
  unfolding split_for_fold
  split_for_fold-cases nodes prioritize = elim (Bool-cases (ltb (length (sort cmp nodes)) 5)) [
    | inl h ↦ inl (λ b. rw h refl)
    | inr h ↦ elim (Option-cases (match_set_of prioritize (sort cmp nodes))) [
      | inl m ↦
          inr (sort cmp nodes, sort-perm cmp nodes, ground (arith, h), inr (λ b. rw h (rw m refl)))
      | inr (s, m) ↦
          let p : KNode → Bool = λ n. contains s n.id in
          inr (
            floated s (sort cmp nodes),
            Perm.trans (parts-perm p (sort cmp nodes)) (sort-perm cmp nodes),
            (let l = parts-length p (sort cmp nodes) in ground (arith, h, l)),
            inl (λ b. rw h (rw m refl)),
          )
    ]
  ]

  -- Whatever the order and the priority: putting the hidden cards of a folded cluster where its pill
  -- stands gives the cards of the unfolded one, which are the cluster's nodes in some order; both hide the
  -- same cards; and these are none or at least two.
  pub split_for_fold-Expands :
      (nodes : List KNode) (prioritize : Option (KNode → Bool))
      → Expands
          (split_for_fold cmp nodes false prioritize)
          (split_for_fold cmp nodes true prioritize)
          nodes
  split_for_fold-Expands nodes prioritize =
      let folded = split_for_fold cmp nodes false prioritize in
      let unfolded = split_for_fold cmp nodes true prioritize in
      (elim (split_for_fold-cases nodes prioritize) [
        | inl w ↦
            as_computed folded unfolded (whole (sort cmp nodes) []) (whole (sort cmp nodes) [])
              nodes (w false) (w true) (whole-Agree (sort cmp nodes)) (sort-perm cmp nodes)
        | inr (ns, p, l, inl f) ↦
            as_computed folded unfolded (fold_floated false ns) (fold_floated true ns) nodes
              (f false) (f true) (floated-Agree ns l) p
        | inr (ns, p, l, inr f) ↦
            as_computed folded unfolded (fold_middle false ns) (fold_middle true ns) nodes (f false)
              (f true) (middle-Agree ns l) p
      ])
