-- ===== src/Time/Ladder.antt =====
-- How far the shown age is from the true one (web/src/time.ts).
use kd.Common.{ℕ, suc, ◌*◌, ◌/◌, ◌≤◌, ◌<◌, inl, inr, ltb, Bool-cases, ltb→lt, ltb-false→le, arith}
use kd.Time.{Rung, rung_of}

abbrev pub rung_seconds : Rung → ℕ
rung_seconds Rung.seconds = 1
rung_seconds Rung.minutes = 60
rung_seconds Rung.hours = 3600
rung_seconds Rung.days = 86400
rung_seconds Rung.years = 31536000

-- The next rung up; there is none above the years.
abbrev pub IsInRung : Rung → ℕ → Type 0
IsInRung Rung.seconds n = n < 60
IsInRung Rung.minutes n = (1 ≤ n) × (n < 60)
IsInRung Rung.hours n = (1 ≤ n) × (n < 24)
IsInRung Rung.days n = (1 ≤ n) × (n < 365)
IsInRung Rung.years n = 1 ≤ n

abbrev pub Stands : ℕ → ℕ × Rung → Type 0
Stands secs r =
    (r.0 * rung_seconds r.1 ≤ secs) × (secs < suc r.0 * rung_seconds r.1) × IsInRung r.1 r.0

-- Whatever the number of seconds, the rung is the largest unit that fits into it, and the count is how
-- often it does: the age is at least what is shown and less than one unit more.
pub rung_of-Stands : (secs : ℕ) → Stands secs (rung_of secs)
unfolding rung_of
rung_of-Stands secs = elim (Bool-cases (ltb secs 60)) [
  | inl low ↦ rw low (omega (arith, ltb→lt _ _ low))
  | inr h ↦ rw h (elim (Bool-cases (ltb (secs / 60) 60)) [
    | inl low ↦ rw low (omega (arith, ltb→lt _ _ low, ltb-false→le _ _ h))
    | inr k ↦ rw k (elim (Bool-cases (ltb (secs / 60 / 60) 24)) [
      | inl low ↦ rw low (omega (arith, ltb→lt _ _ low, ltb-false→le _ _ k))
      | inr l ↦ rw l (elim (Bool-cases (ltb (secs / 60 / 60 / 24) 365)) [
        | inl low ↦ rw low (omega (arith, ltb→lt _ _ low, ltb-false→le _ _ l))
        | inr m ↦ rw m (omega (arith, ltb-false→le _ _ m))
      ])
    ])
  ])
]
