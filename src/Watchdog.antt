-- ===== src/Watchdog.antt =====
-- `watchedEventSource` of web/src/api.ts: the watchdog that replaces a silent event stream.
pub mod Liveness
use kd.Common.{
  ℕ, zero, suc, ◌+◌, ◌/◌, min, Bool, true, false, not, ◌&&◌, filter, Option, none, some, List, [],
  ◌∷◌, Text, nat_eq, ◌==◌, if◌then◌else◌,
}

-- SSE_STALE_MS and SSE_BACKOFF_MAX_MS, in milliseconds
abbrev pub sse_stale_ms : ℕ
sse_stale_ms = 40000

abbrev pub sse_backoff_max_ms : ℕ
sse_backoff_max_ms = 120000

-- A call of one of the caller's handlers.
pub data Call : Type 0 where
  on_open : Call
  on_event : Text → Call
  on_error : Call

-- The local variables of the closure: `gen`, the delay that the timer is armed with (`none` where it is
-- cleared), `backoff`, `closed`, and `es` with an event source named by the generation it was created
-- in. Outside the closure: whether `onVisible` listens, the event sources that the browser holds open,
-- the latest first, and the calls of the caller's handlers, the latest first.
pub record Watchdog : Type 0 where
  pub gen : ℕ
  pub timer : Option ℕ
  pub backoff : ℕ
  pub closed : Bool
  pub es : Option ℕ
  pub listening : Bool
  pub sources : List ℕ
  pub calls : List Call

-- What a source reports.
pub data Signal : Type 0 where
  opened : Signal
  ping : Signal
  event : Text → Signal
  failed : Signal

-- What happens to the closure: a source of some generation reports, the timer runs out (with the
-- delay drawn for the next one), the tab becomes visible or hidden, the caller closes the stream.
pub data Happening : Type 0 where
  report : ℕ → Signal → Happening
  timeout : ℕ → Happening
  visibility : Bool → Happening
  close : Happening

-- `clearTimeout(timer); timer = setTimeout(reconnect, ms)`
abbrev pub arm : ℕ → Watchdog → Watchdog
arm ms w = record w { timer = some ms }

abbrev pub alive : Watchdog → Watchdog
alive w = record w { backoff = sse_stale_ms; timer = some sse_stale_ms }

-- `es?.close()`: the source that the variable holds is no longer open; any other one stays open.
abbrev pub close_source : Option ℕ → List ℕ → List ℕ
close_source none sources = sources
close_source (some id) sources = filter (λ source. not (source == id)) sources

-- `es?.close()`, then `es = new EventSource(url)`.
unfoldable pub connect : Watchdog → Watchdog
connect w = record w {
  gen = suc w.gen;
  es = some (suc w.gen);
  sources = suc w.gen ∷ close_source w.es w.sources;
}

-- `backoff * 1.5`; the values that occur are even.
abbrev pub grow : ℕ → ℕ
grow backoff = min (backoff + backoff / 2) sse_backoff_max_ms

-- `drawn` is `backoff * (0.8 + Math.random() * 0.4)`.
unfoldable pub reconnect : ℕ → Watchdog → Watchdog
reconnect drawn w =
    if w.closed
    then w
    else connect (arm (min drawn sse_backoff_max_ms) (record w { backoff = grow w.backoff }))

abbrev pub is_fresh : ℕ → Watchdog → Bool
is_fresh my_gen w = not w.closed && my_gen == w.gen

-- The listeners of a source, for one that is fresh.
abbrev pub listen : Signal → Watchdog → Watchdog
listen Signal.opened w = record (alive w) { calls = Call.on_open ∷ w.calls }
listen Signal.ping w = alive w
listen (Signal.event name) w = record (alive w) { calls = Call.on_event name ∷ w.calls }
listen Signal.failed w = record w { calls = Call.on_error ∷ w.calls }

unfoldable pub happen : Happening → Watchdog → Watchdog
happen (Happening.report my_gen signal) w = if is_fresh my_gen w then listen signal w else w
happen (Happening.timeout drawn) w = reconnect drawn (record w { timer = none })
happen (Happening.visibility visible) w =
    if not w.closed && (w.listening && visible) then arm sse_stale_ms w else w
happen Happening.close w = record w {
  closed = true;
  timer = none;
  listening = false;
  sources = close_source w.es w.sources;
}

-- The body of the function: the first connection and the first deadline.
unfoldable pub watched_event_source : Watchdog
watched_event_source = arm sse_stale_ms (
    connect (record {
      gen = 0;
      timer = none;
      backoff = sse_stale_ms;
      closed = false;
      es = none;
      listening = true;
      sources = [];
      calls = [];
    }))

unfoldable pub happen_all : List Happening → Watchdog → Watchdog
happen_all [] w = w
happen_all (h ∷ hs) w = happen_all hs (happen h w)
