-- ===== src/Time.antt =====
-- web/src/time.ts: the age ladder. A date that parses is its milliseconds since the epoch.
pub mod Ladder
use kd.Common.{
  ℕ, ◌+◌, ◌-◌, ◌*◌, ◌/◌, Bool, true, false, Option, none, some, List, [], ◌∷◌, ◌++◌, Text,
  if◌then◌else◌, ltb, decimal,
}

pub data Rung : Type 0 where
  seconds minutes hours days years : Rung

abbrev pub rung_letter : Rung → ℕ
rung_letter Rung.seconds = b's'
rung_letter Rung.minutes = b'm'
rung_letter Rung.hours = b'h'
rung_letter Rung.days = b'd'
rung_letter Rung.years = b'y'

-- The count and the rung that stand for a number of seconds.
unfoldable pub rung_of : ℕ → ℕ × Rung
rung_of secs =
    let mins = secs / 60 in
    let hours = mins / 60 in
    let days = hours / 24 in
    if ltb secs 60
    then (secs, Rung.seconds)
    else if ltb mins 60
    then (mins, Rung.minutes)
    else if ltb hours 24
    then (hours, Rung.hours)
    else if ltb days 365
    then (days, Rung.days)
    else (days / 365, Rung.years)

abbrev pub elapsed : ℕ → ℕ → ℕ
elapsed since now = (now - since) / 1000

-- An empty text where the date does not parse.
unfoldable pub relative_age : Option ℕ → ℕ → Text
relative_age none now = []
relative_age (some since) now =
    let rung = rung_of (elapsed since now) in decimal rung.0 ++ rung_letter rung.1 ∷ []

unfoldable pub relative_until : Option ℕ → ℕ → Text
relative_until none now = []
relative_until (some since) now = relative_age (some now) since
