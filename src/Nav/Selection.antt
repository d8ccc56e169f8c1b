-- ===== src/Nav/Selection.antt =====
-- What `resolveSelectionOnSnapshot` of web/src/nav.ts selects, and what a deep link addresses.
use kd.Common.{
  ◌≡◌, refl, sym, ap, ◌∙◌, Bool, true, ◌&&◌, Option, none, some, List, [], ◌∷◌, ◌++◌, Text, text_eq,
  text_beq_iff, ◌==◌, any, find?, Lacks, split_unit-append, split_unit-single, arith, Bool-cases,
  Option-cases, inl, inr,
}
use kd.Types.{KNode, truthy}
use kd.Nav.{has_id, is_kept, linked, match_sel, namespace_of, resolve_selection_on_snapshot}

find?-any :
    {A : Type 0} (p q : A → Bool) (xs : List A) (x : A)
    → find? p xs ≡ some x
    → q x ≡ true
    → any q xs ≡ true
find?-any p q [] x h k = cc
find?-any p q (y ∷ ys) x h k = elim (Bool-cases (p y)) [
  | inl t ↦ let e : y ≡ x = ground (arith, h, t) in rw e (rw k refl)
  | inr f ↦
      let e : find? p ys ≡ some x = ground (arith, h, f) in ground (arith, find?-any p q ys x e k)
]

find?-holds : {A : Type 0} (p : A → Bool) (xs : List A) (x : A) → find? p xs ≡ some x → p x ≡ true
find?-holds p [] x h = cc
find?-holds p (y ∷ ys) x h = elim (Bool-cases (p y)) [
  | inl t ↦ let e : y ≡ x = ground (arith, h, t) in ap p (sym e) ∙ t
  | inr f ↦ find?-holds p ys x (ground (arith, h, f))
]

linked-find :
    (nodes : List KNode) (pending : Option Text) (n : KNode)
    → linked nodes pending ≡ some n
    → (sel : Text) × (pending ≡ some sel) × (find? (λ m. match_sel m sel) nodes ≡ some n)
linked-find nodes none n h = cc
linked-find nodes (some sel) n h = (sel, refl, h)

-- A selected identifier is one of the nodes'.
pub resolve-is_present :
    (nodes : List KNode) (keep_id pending_sel : Option Text) (id : Text)
    → (resolve_selection_on_snapshot nodes keep_id pending_sel).id ≡ some id
    → any (has_id id) nodes ≡ true
unfolding resolve_selection_on_snapshot
resolve-is_present nodes keep_id pending_sel id h =
    elim (Bool-cases (is_kept nodes (truthy keep_id))) [
      | inl kept ↦
          let e : truthy keep_id ≡ some id = ground (arith, h, kept) in
          ap (is_kept nodes) (sym e) ∙ kept
      | inr lost ↦ elim (Option-cases (linked nodes (truthy pending_sel))) [
        | inl k ↦ ground (arith, h, k, lost)
        | inr (n, k) ↦
            let e : n.id ≡ id = ground (arith, h, k, lost) in
            let (sel, _, found) = linked-find nodes (truthy pending_sel) n k in
            find?-any (λ m. match_sel m sel) (has_id id) nodes n found ((text_beq_iff n.id id).1 e)
      ]
    ]

-- A reference with three parts that hold no slash addresses the node of that kind, namespace and
-- name, and no other.
pub match_sel-three_parts :
    (n : KNode) (kind namespace name : Text)
    → Lacks b'/' kind
    → Lacks b'/' namespace
    → Lacks b'/' name
    → match_sel n (kind ++ b'/' ∷ (namespace ++ b'/' ∷ name))
      ≡ (n.kind == kind && (namespace_of n == namespace && n.name == name))
unfolding match_sel
match_sel-three_parts n kind namespace name hk hs hn =
    rw (split_unit-append b'/' kind (namespace ++ b'/' ∷ name) hk)
      (rw (split_unit-append b'/' namespace name hs) (rw (split_unit-single b'/' name hn) refl))
