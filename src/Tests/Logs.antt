-- ===== src/Tests/Logs.antt =====
-- Log lines and their resume, at a few entries.
use kd.Common.{
  Option, is_nil, filter, false, not, ◌&&◌, contains, ◌≤◌, ◌≡◌, refl, true, false, none, some, List,
  [], ◌∷◌, map, Text, text, text_eq, arith, All, min, lookup, lower_unit, trim, trim_start,
  is_space, insert, erase,
}
use kd.Logs.{Segment, fold_case, split_by_match, split_from, index_of}
use kd.Logs.Highlight.{shown_text}
use kd.Logs.Hits.{IsSearched, split_by_match-shown}
use kd.Logs.Ascii.{LowersAscii, split_by_match-finds}
use kd.Logs.Level.{
  LogLevel, parse_log_level, is_hidden, filter_log_lines, format_log_time, clock_of, klog_level,
  field_level, token_level, leading_level, classify_level,
}
use kd.Logs.Kept.{is_marked, filter_log_lines-marked}
use kd.LogResume.{
  LogEntry, SourceResume, LogResume, Step, opened, run, new_session, count_of, step, accept,
  verdict, note, advance, remember, create_log_resume,
}
use kd.LogResume.Counting.{copies, dropped, opened-drops}
use kd.LogResume.Sessions.{run-drops_shown}

split_by_match-shown_example :
    (ss : List Segment) × (split_by_match (map lower_unit) (text "An Error") (text "err") false
      ≡ some ss)
    × (shown_text ss ≡ text "An Error")
split_by_match-shown_example =
    split_by_match-shown (map lower_unit) (text "An Error") (text "err") false

abbrev segments : List Segment
segments =
    record { text = text "An "; match = false }
    ∷ record { text = text "Err"; match = true }
    ∷ record { text = text "or"; match = false }
    ∷ []

split : split_by_match (map lower_unit) (text "An Error") (text "err") false ≡ some segments
unfolding split_by_match split_from index_of trim trim_start is_space
split = refl

host : LowersAscii (map lower_unit)
host s h = refl

split_by_match-finds_example :
    (ss : List Segment) × (split_by_match (map lower_unit) (text "An Error") (text "err") false
      ≡ some ss)
    × (shown_text ss ≡ text "An Error")
    × All (IsSearched (fold_case (map lower_unit) false) (trim (text "err"))) ss
split_by_match-finds_example =
    split_by_match-finds (map lower_unit) (text "An Error") (text "err") false host (omega arith)

abbrev entry : LogEntry
entry = record {
  pod = text "web-0";
  container = none;
  time = some (text "2026-05-29T05:40:51Z");
  line = text "ready";
}

abbrev source : Text
source = text "web-0/"

abbrev recorded : SourceResume
recorded = record { stamp = text "2026-05-29T05:40:51Z"; lines = (text "ready", 1) ∷ [] }

abbrev resume : LogResume
resume = record { live = (source, recorded) ∷ []; delivered = [] }

opened-drops_example :
    dropped source recorded.stamp (text "ready") (entry ∷ entry ∷ []) (opened resume)
    ≡ min
        (count_of (text "ready") recorded)
        (copies source recorded.stamp (text "ready") (entry ∷ entry ∷ []))
unfolding lookup
opened-drops_example = opened-drops resume source (text "ready") recorded (entry ∷ entry ∷ []) refl

abbrev steps : List Step
steps = Step.open_stream ∷ Step.entry entry ∷ []

remembered : lookup source (run steps new_session).resume.live ≡ some recorded
unfolding lookup insert erase run step opened accept verdict note advance remember create_log_resume
remembered = refl

run-drops_shown_example :
    dropped source recorded.stamp
      (text "ready")
      (entry ∷ entry ∷ [])
      (opened (run steps new_session).resume)
    ≤ copies source recorded.stamp (text "ready") (run steps new_session).displayed
run-drops_shown_example =
    run-drops_shown steps (entry ∷ entry ∷ []) source (text "ready") recorded remembered

abbrev shown_line : Text → LogEntry
shown_line line = record { pod = text "web-0"; container = none; time = none; line = line }

abbrev levels : List (Option LogLevel)
levels = map parse_log_level (
    text "W0521 05:40:51 slow"
    ∷ text "{ msg: none, Level=fatal }"
    ∷ text "12:00 [ERR] broken"
    ∷ text "2026-05-29T05:40:51z 1 Info: up"
    ∷ text "returned an error"
    ∷ [])

levels_found :
    levels
    ≡ some LogLevel.warn
      ∷ some LogLevel.error
      ∷ some LogLevel.error
      ∷ some LogLevel.info
      ∷ none
      ∷ []
unfolding parse_log_level klog_level field_level token_level leading_level classify_level contains
    trim_start is_space
levels_found = refl

times_shown :
    map format_log_time
      (text "2026-05-29T05:40:51.832381Z" ∷ text "T1:T05:40:51+1" ∷ text "05:40" ∷ [])
    ≡ text "05:40:51.832" ∷ text "05:40:51" ∷ text "05:40" ∷ []
unfolding format_log_time clock_of
times_shown = refl

stays_filled : (s : Text) → is_nil s ≡ false → is_nil (map lower_unit s) ≡ false
stays_filled [] h = h
stays_filled (c ∷ s) h = refl

filter_log_lines-marked_example :
    filter_log_lines
      (map lower_unit)
      (shown_line (text "INFO up") ∷ shown_line (text "is Up") ∷ [])
      (text "UP")
      false
      (LogLevel.info ∷ [])
    ≡ filter
        (λ l.
          not (is_hidden (LogLevel.info ∷ []) l.line)
          && is_marked (map lower_unit) (text "UP") false l.line)
        (shown_line (text "INFO up") ∷ shown_line (text "is Up") ∷ [])
unfolding trim is_space
filter_log_lines-marked_example =
    filter_log_lines-marked (map lower_unit) refl stays_filled
      (shown_line (text "INFO up") ∷ shown_line (text "is Up") ∷ []) (text "UP") false
      (LogLevel.info ∷ []) refl
