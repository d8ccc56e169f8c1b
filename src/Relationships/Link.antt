-- ===== src/Relationships/Link.antt =====
-- `parseRels` of web/src/relationships.ts reads back the list that a link carries.
use kd.Common.{
  ℕ, ◌≤◌, ◌≡◌, refl, sym, ap, ◌∙◌, false, none, some, List, [], ◌∷◌, ◌++◌, map, Text, append-nil,
  append_assoc, text_eq, ==_iff, contains, contains-append, add, split_unit, join_unit, split-join,
  Lacks, arith, All,
}
use kd.Types.{RelCategory, rel_eq}
use kd.Relationships.{rel_name, rel_alias, rel_id, collect_rels, parse_rels}

-- No category is listed twice.
abbrev pub Distinct : List RelCategory → Type 0
Distinct [] = Unit
Distinct (r ∷ rs) = (contains rs r ≡ false) × Distinct rs

abbrev pub IsLowerLetter : ℕ → Type 0
IsLowerLetter c = (b'a' ≤ c) × (c ≤ b'z')

rel_name-IsLower : (r : RelCategory) → All IsLowerLetter (rel_name r)
rel_name-IsLower RelCategory.ownership = ground arith
rel_name-IsLower RelCategory.network = ground arith
rel_name-IsLower RelCategory.volumes = ground arith
rel_name-IsLower RelCategory.rbac = ground arith
rel_name-IsLower RelCategory.scheduling = ground arith
rel_name-IsLower RelCategory.monitoring = ground arith

rel_name-Lacks : (r : RelCategory) → Lacks b',' (rel_name r)
rel_name-Lacks RelCategory.ownership = ground arith
rel_name-Lacks RelCategory.network = ground arith
rel_name-Lacks RelCategory.volumes = ground arith
rel_name-Lacks RelCategory.rbac = ground arith
rel_name-Lacks RelCategory.scheduling = ground arith
rel_name-Lacks RelCategory.monitoring = ground arith

names-Lacks : (rs : List RelCategory) → All (Lacks b',') (map rel_name rs)
names-Lacks [] = tt
names-Lacks (r ∷ rs) = (rel_name-Lacks r, names-Lacks rs)

rel_id-name : (r : RelCategory) → rel_id (rel_alias (rel_name r)) ≡ some r
unfolding rel_id
rel_id-name RelCategory.ownership = refl
rel_id-name RelCategory.network = refl
rel_id-name RelCategory.volumes = refl
rel_id-name RelCategory.rbac = refl
rel_id-name RelCategory.scheduling = refl
rel_id-name RelCategory.monitoring = refl

rel_id-nil : rel_id (rel_alias []) ≡ none
unfolding rel_id
rel_id-nil = refl

add_new :
    (out : List RelCategory) (r : RelCategory) → contains out r ≡ false → add out r ≡ out ++ r ∷ []
unfolding add
add_new out r h = rw h refl

absent_later :
    (out : List RelCategory) (r : RelCategory) (rs : List RelCategory)
    → contains rs r ≡ false
    → All (λ q. contains out q ≡ false) rs
    → All (λ q. contains (out ++ r ∷ []) q ≡ false) rs
unfolding contains
absent_later out r [] h k = tt
absent_later out r (q ∷ rs) h k = (
  ground (arith, contains-append out (r ∷ []) q, k.0, ==_iff q r, ==_iff r q, h),
  absent_later out r rs (ground (arith, h)) k.1,
)

module _ (to_lower_case : Text → Text)
    (keeps : (s : Text) → All IsLowerLetter s → to_lower_case s ≡ s) where
  name_read : (r : RelCategory) → rel_id (rel_alias (to_lower_case (rel_name r))) ≡ some r
  name_read r =
      ap (λ x. rel_id (rel_alias x)) (keeps (rel_name r) (rel_name-IsLower r)) ∙ rel_id-name r

  empty_read : rel_id (rel_alias (to_lower_case [])) ≡ none
  empty_read = ap (λ x. rel_id (rel_alias x)) (keeps [] tt) ∙ rel_id-nil

  collect_known :
      (out : List RelCategory) (x : Text) (xs : List Text) (r : RelCategory)
      → rel_id (rel_alias (to_lower_case x)) ≡ some r
      → collect_rels to_lower_case out (x ∷ xs) ≡ collect_rels to_lower_case (add out r) xs
  unfolding collect_rels
  collect_known out x xs r h = rw (h, collect_rels) refl

  collect_empty : collect_rels to_lower_case [] ([] ∷ []) ≡ []
  unfolding collect_rels
  collect_empty = rw (empty_read, collect_rels) refl

  collect-names :
      (out rs : List RelCategory)
      → Distinct rs
      → All (λ q. contains out q ≡ false) rs
      → collect_rels to_lower_case out (map rel_name rs) ≡ out ++ rs
  unfolding collect_rels
  collect-names out [] d a = sym (append-nil out)
  collect-names out (r ∷ rs) d a =
      collect_known out (rel_name r) (map rel_name rs) r (name_read r)
      ∙ ap (λ o. collect_rels to_lower_case o (map rel_name rs)) (add_new out r a.0)
      ∙ collect-names (out ++ r ∷ []) rs d.1 (absent_later out r rs d.0 a.1)
      ∙ append_assoc out (r ∷ []) rs

  none_seen : (rs : List RelCategory) → All (λ q. contains [] q ≡ false) rs
  unfolding contains
  none_seen [] = tt
  none_seen (r ∷ rs) = (refl, none_seen rs)

  -- The names of distinct categories, joined by commas, are read back as those categories, the empty
  -- list included, if lower-casing keeps words of lower-case ASCII letters.
  pub parse_rels-join :
      (rs : List RelCategory)
      → Distinct rs
      → parse_rels to_lower_case (some (join_unit b',' (map rel_name rs))) ≡ some rs
  unfolding parse_rels split_unit join_unit
  parse_rels-join [] d = ap some collect_empty
  parse_rels-join (r ∷ rs) d =
      ap (λ ps. some (collect_rels to_lower_case [] ps))
        (split-join b',' (rel_name r) (map rel_name rs) (names-Lacks (r ∷ rs)))
      ∙ ap some (collect-names [] (r ∷ rs) d (none_seen (r ∷ rs)))
