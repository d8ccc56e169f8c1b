-- ===== src/LogResume/Capacity.antt =====
-- The maps of web/src/logResume.ts stay within the capacity of the log buffer.
use kd.Common.{
  suc, ◌≤◌, ◌≡◌, Option, none, some, List, [], ◌∷◌, Text, text_eq, length, lookup, insert, erase,
  arith, inl, inr, length-drop, refl, Option-cases, ◌⊎◌,
}
use kd.LogResume.{
  LogEntry, SourceResume, LogResume, Verdict, log_buffer_capacity, create_log_resume, opened,
  remember, note, verdict, replay, settle, accept, advance, Step, Session, step, run, new_session,
  source_of,
}
use kd.Types.{truthy}

length-erase : (k : Text) (m : List (Text × SourceResume)) → length (erase k m) ≤ length m
unfolding erase
length-erase k [] = omega arith
length-erase k ((j, v) ∷ m) = ground (arith, length-erase k m)

length-insert :
    (k : Text) (v : SourceResume) (m : List (Text × SourceResume))
    → length (insert k v m) ≤ suc (length m)
unfolding insert
length-insert k v [] = omega arith
length-insert k v ((j, w) ∷ m) = ground (arith, length-insert k v m)

length-insert_known :
    (k : Text) (v w : SourceResume) (m : List (Text × SourceResume))
    → lookup k m ≡ some w
    → length (insert k v m) ≤ length m
unfolding insert lookup
length-insert_known k v w [] h = cc
length-insert_known k v w ((j, u) ∷ m) h = ground (arith, length-insert_known k v w m, h)

length-remember :
    (source : Text) (r : Option SourceResume) (live : List (Text × SourceResume))
    → length live ≤ log_buffer_capacity
    → length (remember source r live) ≤ log_buffer_capacity
unfolding remember
length-remember source none live h = h
length-remember source (some r) live h =
    let a = length-insert source r (erase source live) in
    let b = length-erase source live in
    let d = length-drop 1 (insert source r (erase source live)) in ground (arith, a, b, d, h)

-- Neither map holds more sources than the buffer holds lines.
pub record IsBounded (s : LogResume) : Type 0 where
  pub live : length s.live ≤ log_buffer_capacity
  pub delivered : length s.delivered ≤ log_buffer_capacity

-- A verdict that is no `fresh` rests on a snapshot and a stamp.
pub verdict_known :
    (e : LogEntry) (s : LogResume)
    → ((verdict e s ≡ Verdict.fresh)
        × ((lookup (source_of e) s.delivered ≡ none) ⊎ (truthy e.time ≡ none)))
      ⊎ ((r : SourceResume) × (time : Text) × (lookup (source_of e) s.delivered ≡ some r)
          × (truthy e.time ≡ some time)
          × (verdict e s ≡ replay r time e.line))
unfolding verdict
verdict_known e s = elim (Option-cases (lookup (source_of e) s.delivered)) [
  | inl h ↦ inl (rw (h, verdict) refl, inl h)
  | inr (r, h) ↦ elim (Option-cases (truthy e.time)) [
    | inl k ↦ inl (rw (h, k, verdict) refl, inr k)
    | inr (time, k) ↦ inr (r, time, h, k, rw (h, k, verdict) refl)
  ]
]

pub repeated_known :
    (e : LogEntry) (s : LogResume) (r : SourceResume)
    → verdict e s ≡ Verdict.repeated r
    → (w : SourceResume) × (lookup (source_of e) s.delivered ≡ some w)
repeated_known e s r h = elim (verdict_known e s) [ inl (k, _) ↦ cc | inr (w, _, k, _, _) ↦ (w, k) ]

settle-IsBounded :
    (v : Verdict) (e : LogEntry) (s : LogResume)
    → verdict e s ≡ v
    → IsBounded s
    → IsBounded (settle v e s).1
unfolding note
settle-IsBounded Verdict.stale e s h b = b
settle-IsBounded (Verdict.repeated r) e s h b =
    let (w, k) = repeated_known e s r h in
    record {
      live = b.live;
      delivered = omega (arith, length-insert_known (source_of e) r w s.delivered k, b.delivered);
    }
settle-IsBounded Verdict.fresh e s h b = record {
  live =
      length-remember (source_of e) (advance (lookup (source_of e) s.live) (truthy e.time) e.line)
        s.live b.live;
  delivered = b.delivered;
}

step-IsBounded : (x : Step) (t : Session) → IsBounded t.resume → IsBounded (step x t).resume
unfolding step opened accept
step-IsBounded Step.open_stream t b = record { live = b.live; delivered = b.live }
step-IsBounded (Step.entry e) t b = settle-IsBounded (verdict e t.resume) e t.resume refl b

run-keeps_bound : (xs : List Step) (t : Session) → IsBounded t.resume → IsBounded (run xs t).resume
unfolding run
run-keeps_bound [] t b = b
run-keeps_bound (x ∷ xs) t b = run-keeps_bound xs (step x t) (step-IsBounded x t b)

-- However entries and reconnections follow each other, neither map ever holds more sources than the
-- log buffer holds lines.
pub run-IsBounded : (xs : List Step) → IsBounded (run xs new_session).resume
unfolding create_log_resume
run-IsBounded xs =
    run-keeps_bound xs new_session (record { live = omega arith; delivered = omega arith })
