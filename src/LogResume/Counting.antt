-- ===== src/LogResume/Counting.antt =====
-- The number of lines that web/src/logResume.ts drops after a reconnection.
use kd.Common.{
  ℕ, ◌+◌, ◌≡◌, refl, ap, ◌∙◌, Bool, true, false, not, ◌&&◌, some, List, [], ◌∷◌, Text, text_eq, min,
  lookup, arith, subst,
}
use kd.LogResume.{LogEntry, SourceResume, LogResume, count_of, accept, opened}
use kd.LogResume.Resent.{is_copy, one_if, accept-Effect}

module _ (source time line : Text) where
  -- The copies of a line among the entries, and those of them that are dropped one after the other.
  unfoldable pub copies : List LogEntry → ℕ
  copies [] = 0
  copies (e ∷ es) = one_if (is_copy source time line e) + copies es

  unfoldable pub dropped : List LogEntry → LogResume → ℕ
  dropped [] s = 0
  dropped (e ∷ es) s =
      one_if (is_copy source time line e && not (accept e s).0) + dropped es (accept e s).1

  one_copy :
      (c a : Bool) (m n k : ℕ)
      → m + one_if (c && not a) ≡ n
      → (c ≡ true → a ≡ true → n ≡ 0)
      → one_if (c && not a) + min m k ≡ min n (one_if c + k)
  one_copy true true m n k h z = let e = z refl refl in omega arith
  one_copy true false m n k h z = omega arith
  one_copy false true m n k h z = omega arith
  one_copy false false m n k h z = omega arith

  dropped-min :
      (es : List LogEntry) (s : LogResume) (r : SourceResume)
      → lookup source s.delivered ≡ some r
      → r.stamp ≡ time
      → dropped es s ≡ min (count_of line r) (copies es)
  unfolding dropped copies
  dropped-min [] s r h t = omega arith
  dropped-min (e ∷ es) s r h t =
      let (q, k, st, n, z) = accept-Effect source line r e s h in
      let n' : count_of line q + one_if (is_copy source time line e && not (accept e s).0)
          ≡ count_of line r =
        subst
          (λ u.
            count_of line q + one_if (is_copy source u line e && not (accept e s).0)
            ≡ count_of line r)
          t n in
      let z' : is_copy source time line e ≡ true → (accept e s).0 ≡ true → count_of line r ≡ 0 =
        λ c. z (ap (λ u. is_copy source u line e) t ∙ c) in
      ap (λ (m : ℕ). one_if (is_copy source time line e && not (accept e s).0) + m)
        (dropped-min es (accept e s).1 q k (st ∙ t))
      ∙ one_copy (is_copy source time line e) (accept e s).0 (count_of line q) (count_of line r)
          (copies es) n' z'

-- After a reconnection, whatever entries of whatever sources arrive: of the copies of a line that
-- carry the last stamp of their source, as many are dropped as were counted before it, or all if they
-- are fewer.
pub opened-drops :
    (s : LogResume) (source line : Text) (r : SourceResume) (es : List LogEntry)
    → lookup source s.live ≡ some r
    → dropped source r.stamp line es (opened s)
      ≡ min (count_of line r) (copies source r.stamp line es)
unfolding opened
opened-drops s source line r es h = dropped-min source r.stamp line es (opened s) r h refl
