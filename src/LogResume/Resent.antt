-- ===== src/LogResume/Resent.antt =====
-- How often web/src/logResume.ts drops a line that is sent again.
use kd.Common.{
  ℕ, ◌+◌, ◌-◌, ◌<◌, ◌≡◌, ◌≢◌, refl, sym, ap, ◌∙◌, Bool, true, false, not, ◌&&◌, Option, none, some,
  [], ◌∷◌, Text, text_eq, text_beq_iff, ◌==◌, if◌then◌else◌, ltb, lookup, lookup-insert, insert,
  arith, Bool-cases, Option-cases, inl, inr, ◌⊎◌, subst,
}
use kd.Types.{truthy}
use kd.LogResume.{
  LogEntry, SourceResume, LogResume, Verdict, text_ltb, count_of, set_count, replay, verdict,
  settle, accept, source_of, note,
}
use kd.LogResume.Capacity.{verdict_known}

text_ltb_irrefl : (s : Text) → text_ltb s s ≡ false
unfolding text_ltb
text_ltb_irrefl [] = refl
text_ltb_irrefl (c ∷ s) = ground (arith, text_ltb_irrefl s)

pub count-set_count :
    (line other : Text) (n : ℕ) (r : SourceResume)
    → count_of other (set_count line n r) ≡ (if line == other then n else count_of other r)
count-set_count line other n r = ground (arith, lookup-insert line other n r.lines)

pub replay-cases :
    (r : SourceResume) (time line : Text)
    → ((text_ltb time r.stamp ≡ true) × (replay r time line ≡ Verdict.stale))
      ⊎ (((0 < count_of line r)
            × (replay r time line ≡ Verdict.repeated (set_count line (count_of line r - 1) r))
            × (time ≡ r.stamp))
          ⊎ ((replay r time line ≡ Verdict.fresh) × (time ≡ r.stamp → count_of line r ≡ 0)))
unfolding replay
replay-cases r time line = elim (Bool-cases (text_ltb time r.stamp)) [
  | inl l ↦ inl (l, rw l refl)
  | inr l ↦ elim (Bool-cases (time == r.stamp)) [
    | inl e ↦ elim (Bool-cases (ltb 0 (count_of line r))) [
      | inl p ↦
          inr (inl (ground (arith, p), rw l (rw e (rw p refl)), (text_beq_iff time r.stamp).0 e))
      | inr p ↦ inr (inr (rw l (rw e (rw p refl)), (λ _. ground (arith, p))))
    ]
    | inr n ↦
        inr (inr (rw l (rw n refl), (λ e. ground (arith, n, (text_beq_iff time r.stamp).1 e))))
  ]
]

-- The entry carries that line of that source at that time.
abbrev pub at_time : Option Text → Text → Bool
at_time none time = false
at_time (some t) time = t == time

abbrev pub is_copy : Text → Text → Text → LogEntry → Bool
is_copy source time line e =
    source_of e == source && (at_time (truthy e.time) time && e.line == line)

abbrev pub one_if : Bool → ℕ
one_if true = 1
one_if false = 0

pub copy_known :
    (source time line : Text) (e : LogEntry)
    → is_copy source time line e ≡ true
    → (source_of e ≡ source) × (truthy e.time ≡ some time) × (e.line ≡ line)
copy_known source time line e h = elim (Option-cases (truthy e.time)) [
  | inl k ↦ ground (arith, h, k)
  | inr (t, k) ↦ (
    ground (arith, h, text_beq_iff (source_of e) source),
    k ∙ ap some (ground (arith, h, k, text_beq_iff t time)),
    ground (arith, h, k, text_beq_iff e.line line),
  )
]

-- What one entry does to the record of a source, where `a` is the answer to it: of the copies that
-- are left, it takes one exactly if it is a copy and is dropped, and a copy is shown only when none is
-- left.
abbrev pub Effect :
    (source line : Text) (r : SourceResume) (e : LogEntry) (a : Bool × LogResume) → Type 0
Effect source line r e a =
    (q : SourceResume) × (lookup source a.1.delivered ≡ some q)
    × (q.stamp ≡ r.stamp)
    × (count_of line q + one_if (is_copy source r.stamp line e && not a.0) ≡ count_of line r)
    × (is_copy source r.stamp line e ≡ true → a.0 ≡ true → count_of line r ≡ 0)

not_stale : (r : SourceResume) (line : Text) → replay r r.stamp line ≢ Verdict.stale
not_stale r line h = elim (replay-cases r r.stamp line) [
  | inl (l, _) ↦ ground (arith, l, text_ltb_irrefl r.stamp)
  | inr (inl (_, x, _)) ↦ cc
  | inr (inr (x, _)) ↦ cc
]

fresh_count :
    (r : SourceResume) (line : Text) → replay r r.stamp line ≡ Verdict.fresh → count_of line r ≡ 0
fresh_count r line h = elim (replay-cases r r.stamp line) [
  | inl (_, x) ↦ cc
  | inr (inl (_, x, _)) ↦ cc
  | inr (inr (_, z)) ↦ z refl
]

module _ (source line : Text) (r : SourceResume) (e : LogEntry) (s : LogResume)
    (known : lookup source s.delivered ≡ some r) where
  -- The verdict on a copy is read off the record.
  copy-verdict : is_copy source r.stamp line e ≡ true → verdict e s ≡ replay r r.stamp line
  copy-verdict h =
      let (a, b, c) = copy_known source r.stamp line e h in
      elim (verdict_known e s) [
        | inl (_, inl k) ↦
            let l : lookup source s.delivered ≡ none =
              subst (λ x. lookup x s.delivered ≡ none) a k in
            cc
        | inl (_, inr k) ↦ cc
        | inr (w, t, l, m, v) ↦
            let l' : lookup source s.delivered ≡ some w =
              subst (λ x. lookup x s.delivered ≡ some w) a l in
            let wr : w ≡ r = cc in
            let tr : t ≡ r.stamp = cc in
            v
            ∙ ap (λ x. replay x t e.line) wr
            ∙ ap (λ x. replay r x e.line) tr
            ∙ ap (λ x. replay r r.stamp x) c
      ]

  stale-Effect : verdict e s ≡ Verdict.stale → Effect source line r e (false, s)
  stale-Effect v = elim (Bool-cases (is_copy source r.stamp line e)) [
    | inl c ↦ absurd (not_stale r line (sym (copy-verdict c) ∙ v))
    | inr n ↦ (r, known, refl, rw n (omega arith), (λ h k. cc))
  ]

  fresh-Effect : verdict e s ≡ Verdict.fresh → Effect source line r e (true, note e s)
  unfolding note
  fresh-Effect v =
      (r, known, refl, ground arith, (λ h _. fresh_count r line (sym (copy-verdict h) ∙ v)))

  copy_at :
      (t : Text)
      → truthy e.time ≡ some t
      → t ≡ r.stamp
      → source_of e ≡ source
      → is_copy source r.stamp line e ≡ (e.line == line)
  copy_at t m st so =
      ground (arith, m, so, st, text_beq_iff t r.stamp, text_beq_iff (source_of e) source)

  -- A copy of a line that was shown takes one of its copies; any other takes none.
  taken :
      (t : Text)
      → truthy e.time ≡ some t
      → t ≡ r.stamp
      → source_of e ≡ source
      → 0 < count_of e.line r
      → count_of line (set_count e.line (count_of e.line r - 1) r)
          + one_if (is_copy source r.stamp line e && true)
        ≡ count_of line r
  taken t m st so p = elim (Bool-cases (e.line == line)) [
    | inl y ↦
        let same : e.line ≡ line = (text_beq_iff e.line line).0 y in
        let c : is_copy source r.stamp line e ≡ true = copy_at t m st so ∙ y in
        let k : count_of line (set_count e.line (count_of e.line r - 1) r) ≡ count_of e.line r - 1 =
          ground (arith, count-set_count e.line line (count_of e.line r - 1) r, y) in
        let j : count_of e.line r ≡ count_of line r = ap (λ x. count_of x r) same in
        rw c (omega arith)
    | inr n ↦
        let c : is_copy source r.stamp line e ≡ false = copy_at t m st so ∙ n in
        let k : count_of line (set_count e.line (count_of e.line r - 1) r) ≡ count_of line r =
          ground (arith, count-set_count e.line line (count_of e.line r - 1) r, n) in
        rw c (omega arith)
  ]

  repeated-Effect :
      (q : SourceResume)
      → verdict e s ≡ Verdict.repeated q
      → Effect source line r e (false, record s { delivered = insert (source_of e) q s.delivered })
  repeated-Effect q v = elim (verdict_known e s) [
    | inl (f, _) ↦ cc
    | inr (w, t, l, m, vr) ↦ elim (replay-cases w t e.line) [
      | inl (_, x) ↦ cc
      | inr (inr (x, _)) ↦ cc
      | inr (inl (p, x, st)) ↦ elim (Bool-cases (source_of e == source)) [
        | inr o ↦ (
          r,
          lookup-insert (source_of e) source q s.delivered ∙ rw o known,
          refl,
          rw o (omega arith),
          (λ h k. cc),
        )
        | inl o ↦
            let so : source_of e ≡ source = (text_beq_iff (source_of e) source).0 o in
            let lr : lookup source s.delivered ≡ some w =
              subst (λ z. lookup z s.delivered ≡ some w) so l in
            let wr : w ≡ r = cc in
            let tr : t ≡ r.stamp = st ∙ ap (λ (z : SourceResume). z.stamp) wr in
            let qr : set_count e.line (count_of e.line r - 1) r ≡ q = cc in
            (
              q,
              lookup-insert (source_of e) source q s.delivered ∙ rw o refl,
              ap (λ (z : SourceResume). z.stamp) (sym qr),
              subst
                  (λ z.
                    count_of line z + one_if (is_copy source r.stamp line e && true)
                    ≡ count_of line r)
                  qr (taken t m tr so (subst (λ z. 0 < count_of e.line z) wr p)),
              (λ h k. cc),
            )
      ]
    ]
  ]

  settle-Effect : (v : Verdict) → verdict e s ≡ v → Effect source line r e (settle v e s)
  settle-Effect Verdict.stale v = stale-Effect v
  settle-Effect (Verdict.repeated q) v = repeated-Effect q v
  settle-Effect Verdict.fresh v = fresh-Effect v

  pub accept-Effect : Effect source line r e (accept e s)
  unfolding accept
  accept-Effect = settle-Effect (verdict e s) refl
