-- ===== src/LogResume.antt =====
-- web/src/logResume.ts: dropping the lines that a reconnected log stream sends again.
pub mod Capacity
pub mod Resent
pub mod Counting
pub mod Backed
pub mod Sessions
use kd.Common.{
  ℕ, suc, ◌-◌, Bool, true, false, Option, none, some, List, [], ◌∷◌, ◌++◌, Text, text_eq, ◌==◌,
  nat_beq, if◌then◌else◌, ◌&&◌, ltb, length, drop, lookup, insert, erase,
}
use kd.Types.{truthy}

-- LOG_BUFFER_CAPACITY
abbrev pub log_buffer_capacity : ℕ
log_buffer_capacity = 2001

-- LogEntry of api.ts
pub record LogEntry : Type 0 where
  pub pod : Text
  pub container : Option Text
  pub time : Option Text
  pub line : Text

pub record SourceResume : Type 0 where
  pub stamp : Text
  pub lines : List (Text × ℕ)

-- The two maps that the closures share.
pub record LogResume : Type 0 where
  pub live : List (Text × SourceResume)
  pub delivered : List (Text × SourceResume)

unfoldable pub create_log_resume : LogResume
create_log_resume = record { live = []; delivered = [] }

unfoldable pub opened : LogResume → LogResume
opened s = record s { delivered = s.live }

-- `s < t` on strings, by code units
unfoldable pub text_ltb : Text → Text → Bool
text_ltb [] [] = false
text_ltb [] (_ ∷ _) = true
text_ltb (_ ∷ _) [] = false
text_ltb (c ∷ s) (d ∷ t) = if nat_beq c d then text_ltb s t else ltb c d

-- `entry.container ?? ''`
abbrev pub container_of : LogEntry → Text
container_of e = elim e.container [ none ↦ [] | some c ↦ c ]

abbrev pub source_of : LogEntry → Text
source_of e = e.pod ++ b'/' ∷ container_of e

-- `lines.get(line) ?? 0`
abbrev pub or_zero : Option ℕ → ℕ
or_zero none = 0
or_zero (some n) = n

abbrev pub count_of : Text → SourceResume → ℕ
count_of line r = or_zero (lookup line r.lines)

abbrev pub set_count : Text → ℕ → SourceResume → SourceResume
set_count line n r = record r { lines = insert line n r.lines }

-- What the delivered lines say of a stamped entry: older than all of them, one of them, or new.
pub data Verdict : Type 0 where
  stale : Verdict
  repeated : SourceResume → Verdict
  fresh : Verdict

unfoldable pub replay : SourceResume → Text → Text → Verdict
replay r time line =
    if text_ltb time r.stamp
    then Verdict.stale
    else if time == r.stamp && ltb 0 (count_of line r)
    then Verdict.repeated (set_count line (count_of line r - 1) r)
    else Verdict.fresh

-- `!resume || entry.time > resume.stamp` starts a new record.
abbrev pub current : Option SourceResume → Text → SourceResume
current none time = record { stamp = time; lines = [] }
current (some r) time = if text_ltb r.stamp time then record { stamp = time; lines = [] } else r

unfoldable pub advance : Option SourceResume → Option Text → Text → Option SourceResume
advance resume none line = resume
advance resume (some time) line =
    let r = current resume time in
    some (if time == r.stamp then set_count line (suc (count_of line r)) r else r)

-- Put the source at the end of the map, and drop the first one if there are too many.
abbrev pub evict : List (Text × SourceResume) → List (Text × SourceResume)
evict live = if ltb log_buffer_capacity (length live) then drop 1 live else live

unfoldable pub remember :
    Text → Option SourceResume → List (Text × SourceResume) → List (Text × SourceResume)
remember source none live = live
remember source (some r) live = evict (insert source r (erase source live))

-- The part of `accept` below the snapshot's test.
unfoldable pub note : LogEntry → LogResume → LogResume
note e s =
    let resume = advance (lookup (source_of e) s.live) (truthy e.time) e.line in
    record s { live = remember (source_of e) resume s.live }

-- The snapshot's verdict; without a snapshot or a stamp the entry is new.
unfoldable pub verdict : LogEntry → LogResume → Verdict
verdict e s = elim (lookup (source_of e) s.delivered) [
  | none ↦ Verdict.fresh
  | some r ↦ elim (truthy e.time) [ none ↦ Verdict.fresh | some time ↦ replay r time e.line ]
]

abbrev pub settle : Verdict → LogEntry → LogResume → Bool × LogResume
settle Verdict.stale e s = (false, s)
settle (Verdict.repeated r) e s =
    (false, record s { delivered = insert (source_of e) r s.delivered })
settle Verdict.fresh e s = (true, note e s)

-- `accept(entry)`: whether the line is shown, and the maps after it.
unfoldable pub accept : LogEntry → LogResume → Bool × LogResume
accept e s = settle (verdict e s) e s

-- What the log viewer reports to the resume: the stream opened (again), or an entry came.
pub data Step : Type 0 where
  open_stream : Step
  entry : LogEntry → Step

-- The entries that were shown so far, the latest first, with the resume.
pub record Session : Type 0 where
  pub displayed : List LogEntry
  pub resume : LogResume

unfoldable pub step : Step → Session → Session
step Step.open_stream t = record t { resume = opened t.resume }
step (Step.entry e) t =
    let r = accept e t.resume in
    record { displayed = if r.0 then e ∷ t.displayed else t.displayed; resume = r.1 }

unfoldable pub run : List Step → Session → Session
run [] t = t
run (x ∷ xs) t = run xs (step x t)

abbrev pub new_session : Session
new_session = record { displayed = []; resume = create_log_resume }
