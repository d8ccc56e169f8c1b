-- ===== src/Watchdog/Liveness.antt =====
-- The watchdog of web/src/api.ts never gives a stream up before it is closed, and never keeps two.
use kd.Common.{
  ℕ, suc, ◌+◌, ◌≤◌, ◌≡◌, refl, min, true, false, not, ◌&&◌, none, some, Option, List, [], ◌∷◌,
  nat_eq, arith, Bool-cases, ltb, ◌<◌, inl, inr, ◌⊎◌, subst, sym, ap, ◌∙◌, map, length, ◌≢◌,
  nat_beq_iff,
}
use kd.Watchdog.{
  Watchdog, Signal, Happening, sse_stale_ms, sse_backoff_max_ms, grow, reconnect, is_fresh, listen,
  happen, happen_all, watched_event_source, connect, arm, close_source,
}

-- The gaps between two attempts: 40, 60, 90 and 120 seconds.
abbrev pub IsGap : ℕ → Type 0
IsGap b = (b ≡ 40000) ⊎ ((b ≡ 60000) ⊎ ((b ≡ 90000) ⊎ (b ≡ 120000)))

-- While the stream is not closed, the timer is armed with at most two minutes and the one open source
-- is that of the last generation, which `es` holds; once it is closed, neither a timer nor an open
-- source is left.
pub record IsWatched (w : Watchdog) : Type 0 where
  pub deadline : w.closed ≡ false → (ms : ℕ) × (w.timer ≡ some ms) × (ms ≤ sse_backoff_max_ms)
  pub one_source : w.closed ≡ false → (w.es ≡ some w.gen) × (w.sources ≡ w.gen ∷ [])
  pub released : w.closed ≡ true → (w.timer ≡ none) × (w.sources ≡ [])
  pub gap : IsGap w.backoff

grow-IsGap : (b : ℕ) → IsGap b → IsGap (grow b)
grow-IsGap b h = ground arith

listen-IsWatched :
    (s : Signal) (w : Watchdog) → w.closed ≡ false → IsWatched w → IsWatched (listen s w)
listen-IsWatched Signal.opened w o k = record {
  deadline = λ _. (sse_stale_ms, refl, omega arith);
  one_source = k.one_source;
  released = λ c. cc;
  gap = inl refl;
}
listen-IsWatched Signal.ping w o k = record {
  deadline = λ _. (sse_stale_ms, refl, omega arith);
  one_source = k.one_source;
  released = λ c. cc;
  gap = inl refl;
}
listen-IsWatched (Signal.event name) w o k = record {
  deadline = λ _. (sse_stale_ms, refl, omega arith);
  one_source = k.one_source;
  released = λ c. cc;
  gap = inl refl;
}
listen-IsWatched Signal.failed w o k = record {
  deadline = k.deadline;
  one_source = k.one_source;
  released = k.released;
  gap = k.gap;
}

closes_nothing : (es : Option ℕ) → close_source es [] ≡ []
closes_nothing none = refl
closes_nothing (some id) = refl

only_source :
    (w : Watchdog)
    → (w.es ≡ some w.gen) × (w.sources ≡ w.gen ∷ [])
    → close_source w.es w.sources ≡ []
only_source w h = rw (h.0, h.1) (ground (arith, nat_beq_iff w.gen w.gen))

abbrev reopened : ℕ → Watchdog → Watchdog
reopened drawn w =
    connect (arm (min drawn sse_backoff_max_ms) (record w { backoff = grow w.backoff }))

timeout_open :
    (drawn : ℕ) (w : Watchdog)
    → w.closed ≡ false
    → happen (Happening.timeout drawn) w ≡ reopened drawn w
unfolding happen reconnect
timeout_open drawn w o = ground (arith, o)

timeout_closed :
    (drawn : ℕ) (w : Watchdog)
    → w.closed ≡ true
    → happen (Happening.timeout drawn) w ≡ record w { timer = none }
unfolding happen reconnect
timeout_closed drawn w c = ground (arith, c)

closing : (w : Watchdog) → IsWatched w → close_source w.es w.sources ≡ []
closing w k = elim (Bool-cases w.closed) [
  | inl c ↦ rw (k.released c).1 (closes_nothing w.es)
  | inr o ↦ only_source w (k.one_source o)
]

happen-IsWatched : (h : Happening) (w : Watchdog) → IsWatched w → IsWatched (happen h w)
unfolding happen reconnect connect
happen-IsWatched (Happening.report g s) w k = elim (Bool-cases (is_fresh g w)) [
  | inl f ↦ rw f (listen-IsWatched s w (ground (arith, f)) k)
  | inr n ↦ rw n k
]
happen-IsWatched (Happening.timeout drawn) w k = elim (Bool-cases w.closed) [
  | inl c ↦ subst IsWatched (sym (timeout_closed drawn w c)) (record {
    deadline = λ o. cc;
    one_source = k.one_source;
    released = λ _. (refl, (k.released c).1);
    gap = k.gap;
  })
  | inr o ↦ subst IsWatched (sym (timeout_open drawn w o)) (record {
    deadline = λ _. (min drawn sse_backoff_max_ms, refl, omega arith);
    one_source = λ _. (refl, ap (λ rest. suc w.gen ∷ rest) (only_source w (k.one_source o)));
    released = λ c. cc;
    gap = grow-IsGap w.backoff k.gap;
  })
]
happen-IsWatched (Happening.visibility v) w k =
    elim (Bool-cases (not w.closed && (w.listening && v))) [
      | inl f ↦ rw f (record {
        deadline = λ _. (sse_stale_ms, refl, omega arith);
        one_source = k.one_source;
        released = λ c. absurd (ground (arith, f, c));
        gap = k.gap;
      })
      | inr n ↦ rw n k
    ]
happen-IsWatched Happening.close w k = record {
  deadline = λ c. cc;
  one_source = λ c. cc;
  released = λ _. (refl, closing w k);
  gap = k.gap;
}

start-IsWatched : IsWatched watched_event_source
unfolding watched_event_source connect
start-IsWatched = record {
  deadline = λ _. (sse_stale_ms, refl, omega arith);
  one_source = λ _. (refl, refl);
  released = λ c. cc;
  gap = inl refl;
}

keeps_IsWatched : (hs : List Happening) (w : Watchdog) → IsWatched w → IsWatched (happen_all hs w)
unfolding happen_all
keeps_IsWatched [] w k = k
keeps_IsWatched (h ∷ hs) w k = keeps_IsWatched hs (happen h w) (happen-IsWatched h w k)

-- Whatever happens, in whatever order: while the stream is not closed, a reconnection is due within
-- two minutes and exactly the source of the last generation is open, the superseded ones being closed;
-- once it is closed, neither timer nor open source is left; and the backoff is 40, 60, 90 or 120 seconds.
pub happen_all-IsWatched : (hs : List Happening) → IsWatched (happen_all hs watched_event_source)
happen_all-IsWatched hs = keeps_IsWatched hs watched_event_source start-IsWatched

-- A report of a source of another generation, or one after the stream is closed, changes nothing.
pub report_stale :
    (my_gen : ℕ) (s : Signal) (w : Watchdog)
    → (my_gen ≢ w.gen) ⊎ (w.closed ≡ true)
    → happen (Happening.report my_gen s) w ≡ w
unfolding happen
report_stale my_gen s w h = ground (arith, h, nat_beq_iff my_gen w.gen)

-- Timeouts with nothing in between.
abbrev pub timeouts : List ℕ → List Happening
timeouts ds = map Happening.timeout ds

timeout-fields :
    (d : ℕ) (w : Watchdog)
    → w.closed ≡ false
    → let v = happen (Happening.timeout d) w in
      (v.closed ≡ false) × (v.gen ≡ suc w.gen) × (v.backoff ≡ grow w.backoff)
unfolding connect
timeout-fields d w o =
    subst (λ v. (v.closed ≡ false) × (v.gen ≡ suc w.gen) × (v.backoff ≡ grow w.backoff))
      (sym (timeout_open d w o)) (o, refl, refl)

-- Repeated growth.
abbrev grown : List ℕ → ℕ → ℕ
grown [] b = b
grown (d ∷ ds) b = grown ds (grow b)

silent :
    (ds : List ℕ) (w : Watchdog)
    → w.closed ≡ false
    → ((happen_all (timeouts ds) w).gen ≡ w.gen + length ds)
      × ((happen_all (timeouts ds) w).backoff ≡ grown ds w.backoff)
unfolding happen_all
silent [] w o = (omega arith, refl)
silent (d ∷ ds) w o =
    let (c, g, b) = timeout-fields d w o in
    let (gs, bs) = silent ds (happen (Happening.timeout d) w) c in
    (omega arith, bs ∙ ap (grown ds) b)

grown_max : (ds : List ℕ) → grown ds sse_backoff_max_ms ≡ sse_backoff_max_ms
grown_max [] = refl
grown_max (d ∷ ds) = grown_max ds

grown_three : (ds : List ℕ) (b : ℕ) → IsGap b → 3 ≤ length ds → grown ds b ≡ sse_backoff_max_ms
grown_three [] b g l = absurd (omega arith)
grown_three (_ ∷ []) b g l = absurd (omega arith)
grown_three (_ ∷ _ ∷ []) b g l = absurd (omega arith)
grown_three (_ ∷ _ ∷ _ ∷ ds) b g l =
    let e : grow (grow (grow b)) ≡ sse_backoff_max_ms = ground arith in
    ap (grown ds) e ∙ grown_max ds

-- In a silence of an open stream each timeout opens one more source, whatever delays are drawn, and
-- from the third one on the backoff stands at its ceiling.
pub silence_lem :
    (ds : List ℕ) (w : Watchdog)
    → IsWatched w
    → w.closed ≡ false
    → ((happen_all (timeouts ds) w).gen ≡ w.gen + length ds)
      × ((length ds < 3) ⊎ ((happen_all (timeouts ds) w).backoff ≡ sse_backoff_max_ms))
silence_lem ds w k o =
    let (g, b) = silent ds w o in
    elim (Bool-cases (ltb (length ds) 3)) [
      | inl l ↦ (g, inl (ground (arith, l)))
      | inr l ↦ (g, inr (b ∙ grown_three ds w.backoff k.gap (ground (arith, l))))
    ]
