-- ===== src/Logs/Level.antt =====
-- The severity of a log line, the filter of the viewer and its time column (web/src/logs.ts). The
-- regular expressions are scanners: after each of their words a character is asked for that the word
-- cannot contain, so the word is the run of word characters there.
use kd.Common.{
  ℕ, Bool, true, false, not, ◌&&◌, ◌||◌, Option, none, some, List, [], ◌∷◌, ◌++◌, map, Text, text,
  text_eq, nat_eq, ◌==◌, if◌then◌else◌, leb, length, take, drop, filter, contains, starts_with,
  includes, trim, trim_start, is_nil, is_space, is_digit, lower_unit,
}
use kd.LogResume.{LogEntry}
use kd.Logs.{fold_case}

pub data LogLevel : Type 0 where
  error warn info debug : LogLevel

abbrev level_beq : LogLevel → LogLevel → Bool
level_beq error error = true
level_beq warn warn = true
level_beq info info = true
level_beq debug debug = true
level_beq _ _ = false

unfoldable pub classify_level : Text → LogLevel
classify_level word =
    let w = map lower_unit word in
    if contains (text "error" ∷ text "err" ∷ text "fatal" ∷ text "panic" ∷ []) w
    then error
    else if contains (text "warn" ∷ text "warning" ∷ []) w
    then warn
    else if contains (text "debug" ∷ text "trace" ∷ []) w
    then debug
    else info

abbrev pub level_words : List Text
level_words =
    text "error"
    ∷ text "err"
    ∷ text "fatal"
    ∷ text "panic"
    ∷ text "warn"
    ∷ text "warning"
    ∷ text "info"
    ∷ text "debug"
    ∷ text "trace"
    ∷ []

abbrev pub upper_words : List Text
upper_words =
    text "ERROR"
    ∷ text "ERR"
    ∷ text "FATAL"
    ∷ text "PANIC"
    ∷ text "WARN"
    ∷ text "WARNING"
    ∷ text "INFO"
    ∷ text "DEBUG"
    ∷ text "TRACE"
    ∷ []

abbrev pub is_word_unit : ℕ → Bool
is_word_unit c = is_digit c || leb b'a' (lower_unit c) && leb (lower_unit c) b'z' || c == b'_'

abbrev pub starts_by : (ℕ → Bool) → Text → Bool
starts_by p [] = false
starts_by p (c ∷ s) = p c

-- The longest prefix of such characters, and what follows it.
abbrev pub run_of : (ℕ → Bool) → Text → Text
run_of p [] = []
run_of p (c ∷ s) = if p c then c ∷ run_of p s else []

abbrev pub behind : (ℕ → Bool) → Text → Text
behind p [] = []
behind p (c ∷ s) = if p c then behind p s else c ∷ s

abbrev pub or_else : Option Text → Option Text → Option Text
or_else none b = b
or_else (some a) b = some a

-- `/^[EWIF]\d{4}\s/`
unfoldable pub klog_level : Text → Option LogLevel
klog_level [] = none
klog_level (c ∷ s) =
    let stamp = run_of is_digit (take 4 s) in
    if contains (text "EWIF") c && length stamp == 4 && starts_by is_space (drop 4 s)
    then some (if c == b'E' || c == b'F' then error else if c == b'W' then warn else info)
    else none

-- Behind the word, whose case is free.
abbrev pub behind_word : Text → Text → Option Text
behind_word word s =
    if starts_with word (map lower_unit s) then some (drop (length word) s) else none

abbrev pub behind_key : Text → Option Text
behind_key s =
    or_else (behind_word (text "lvl") s)
      (or_else (behind_word (text "level") s) (behind_word (text "severity") s))

abbrev pub skip_quote : Text → Text
skip_quote s = if starts_by (λ c. c == b'"') s then drop 1 s else s

abbrev pub level_at : Text → Option Text
level_at s =
    let w = run_of is_word_unit s in
    if contains level_words (map lower_unit w) then some w else none

abbrev pub field_value : Text → Option Text
field_value s =
    let sign = trim_start (skip_quote s) in
    if starts_by (λ c. c == b':' || c == b'=') sign
    then level_at (skip_quote (trim_start (drop 1 sign)))
    else none

-- The first `level=value`; `inside` is whether a word character comes before.
unfoldable pub field_level : Bool → Text → Option Text
field_level inside [] = none
field_level inside (c ∷ s) =
    let later = field_level (is_word_unit c) s in
    if inside
    then later
    else or_else (elim (behind_key (c ∷ s)) [ none ↦ none | some rest ↦ field_value rest ]) later

abbrev pub token_at : Text → Option Text
token_at s =
    let w = run_of is_word_unit s in
    let ends = λ (c : ℕ). is_space c || c == b']' || c == b')' || c == b':' in
    if contains upper_words w && starts_by ends (drop (length w) s) then some w else none

-- The first upper-case word between delimiters; `may` is whether one may start here.
unfoldable pub token_level : Bool → Text → Option Text
token_level may [] = none
token_level may (c ∷ s) =
    let later = token_level (is_space c || c == b'[' || c == b'(') s in
    if may then or_else (token_at (c ∷ s)) later else later

abbrev pub is_gap : ℕ → Bool
is_gap c = c == b' ' || c == 9

abbrev pub is_stamp_unit : ℕ → Bool
is_stamp_unit c = is_digit c || contains (text ":.,t/+-z") (lower_unit c)

-- Behind a time stamp and the gap after it, if the text starts with them.
abbrev pub behind_stamp : Text → Text
behind_stamp s =
    let rest = behind is_stamp_unit s in
    if starts_by is_digit s && starts_by is_gap rest then behind is_gap rest else s

unfoldable pub leading_level : Text → Option Text
leading_level s =
    let slot = behind_stamp (behind_stamp s) in
    let w = run_of is_word_unit slot in
    let rest = drop (length w) slot in
    if contains level_words (map lower_unit w)
      && (is_nil rest || starts_by (λ c. is_gap c || c == b':') rest)
    then some w
    else none

unfoldable pub parse_log_level : Text → Option LogLevel
parse_log_level line =
    let head = take 64 line in
    let scope = if starts_by (λ c. c == b'{') line then line else head in
    elim (klog_level head) [
      | some l ↦ some l
      | none ↦
          elim (or_else (field_level false scope)
            (or_else (token_level true head) (leading_level head))) [
              | none ↦ none
              | some word ↦ some (classify_level word)
            ]
    ]

abbrev pub holds_level : List LogLevel → LogLevel → Bool
holds_level [] l = false
holds_level (h ∷ hidden) l = if level_beq h l then true else holds_level hidden l

-- The line has a level, and that is toggled off.
abbrev pub is_hidden : List LogLevel → Text → Bool
is_hidden hidden line = elim (parse_log_level line) [ none ↦ false | some l ↦ holds_level hidden l ]

-- `toLowerCase` of the host; without a set of hidden levels, `hidden` is empty.
unfoldable pub filter_log_lines :
    (Text → Text) → List LogEntry → Text → Bool → List LogLevel → List LogEntry
filter_log_lines to_lower_case lines query case_sensitive hidden =
    let raw = trim query in
    if is_nil raw && is_nil hidden
    then lines
    else filter
        (λ l.
          if not (is_nil hidden) && is_hidden hidden l.line
          then false
          else if is_nil raw
          then true
          else includes (fold_case to_lower_case case_sensitive raw)
              (fold_case to_lower_case case_sensitive l.line))
        lines

abbrev pub is_clock : Text → Bool
is_clock s =
    let two = λ (t : Text). length (run_of is_digit (take 2 t)) == 2 in
    two s
    && starts_by (λ c. c == b':') (drop 2 s)
    && two (drop 3 s)
    && starts_by (λ c. c == b':') (drop 5 s)
    && two (drop 6 s)

abbrev pub fraction : Text → Text
fraction s = if starts_by (λ c. c == b'.') s then run_of is_digit (drop 1 s) else []

-- The first clock time behind a `T`, compacted.
unfoldable pub clock_of : Text → Option Text
clock_of [] = none
clock_of (c ∷ s) =
    let later = clock_of s in
    let digits = fraction (drop 8 s) in
    if c == b'T' && is_clock s
    then some (if is_nil digits then take 8 s else take 8 s ++ b'.' ∷ take 3 digits)
    else later

unfoldable pub format_log_time : Text → Text
format_log_time raw = elim (clock_of raw) [ none ↦ raw | some t ↦ t ]
