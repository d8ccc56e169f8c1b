-- ===== src/Namespaces/Cycle.antt =====
-- `nextTroubled` of web/src/ns.ts is a cycle through all troubled namespaces.
use kd.Common.{
  ℕ, zero, suc, ◌+◌, ◌%◌, ◌≡◌, refl, ap, ◌∙◌, false, Option, some, List, [], ◌∷◌, Text, text_eq,
  text_beq_iff, filter, length, get_elem?, get_elem?-All, Ordering, sort, All, DistinctBy,
  DistinctBy-sort, DistinctBy-filter, arith,
}
use kd.Namespaces.{
  NamespaceInfo, is_troubled, compare_namespaces, troubled_namespaces, is_named, index_after,
  next_troubled,
}

-- No two namespaces have one name.
abbrev pub DistinctNames : List NamespaceInfo → Type 0
DistinctNames xs = DistinctBy (λ n. n.name) xs

index_after-get :
    (i k : ℕ) (xs : List NamespaceInfo) (n : NamespaceInfo)
    → DistinctNames xs
    → get_elem? xs k ≡ some n
    → index_after (some n.name) i xs ≡ suc (i + k)
unfolding index_after
index_after-get i k [] n d h = cc
index_after-get i zero (x ∷ xs) n d h = ground (arith, text_beq_iff x.name n.name)
index_after-get i (suc k) (x ∷ xs) n d h = ground (
  arith,
  index_after-get (suc i) k xs n d.1 h,
  get_elem?-All _ xs k n h d.0,
  text_beq_iff x.name n.name,
)

index_after-missing :
    (i : ℕ) (current : Option Text) (xs : List NamespaceInfo)
    → All (λ n. is_named current n ≡ false) xs
    → index_after current i xs ≡ 0
unfolding index_after
index_after-missing i current [] h = refl
index_after-missing i current (x ∷ xs) h =
    ground (arith, index_after-missing (suc i) current xs h.1)

-- With distinct names in the list, stepping from the troubled namespace at place `i` of their order
-- leads to the one at the next place, and from the last one to the first; so as many presses as there
-- are troubled namespaces reach each of them.
pub next_troubled-cycle :
    (locale_compare : Text → Text → Ordering) (list : List NamespaceInfo) (i : ℕ)
    (n : NamespaceInfo)
    → DistinctNames list
    → get_elem? (troubled_namespaces locale_compare list) i ≡ some n
    → next_troubled locale_compare list (some n.name)
      ≡ get_elem?
          (troubled_namespaces locale_compare list)
          (suc i % length (troubled_namespaces locale_compare list))
unfolding next_troubled troubled_namespaces
next_troubled-cycle locale_compare list i n d h =
    let cmp = compare_namespaces locale_compare in
    let troubled = sort cmp (filter is_troubled list) in
    let distinct =
      DistinctBy-sort (λ (m : NamespaceInfo). m.name) cmp (filter is_troubled list)
        (DistinctBy-filter (λ (m : NamespaceInfo). m.name) is_troubled list d) in
    ap (λ (k : ℕ). get_elem? troubled (k % length troubled))
      (index_after-get 0 i troubled n distinct h ∙ omega arith)

-- From a selection that is not among the troubled namespaces, stepping leads to the first of them.
pub next_troubled-first :
    (locale_compare : Text → Text → Ordering) (list : List NamespaceInfo) (current : Option Text)
    → All (λ n. is_named current n ≡ false) (troubled_namespaces locale_compare list)
    → next_troubled locale_compare list current
      ≡ get_elem? (troubled_namespaces locale_compare list) 0
unfolding next_troubled
next_troubled-first locale_compare list current h =
    let troubled = troubled_namespaces locale_compare list in
    ap (λ (k : ℕ). get_elem? troubled (k % length troubled))
      (index_after-missing 0 current troubled h)
    ∙ ap (get_elem? troubled) (grind arith)
