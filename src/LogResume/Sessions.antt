-- ===== src/LogResume/Sessions.antt =====
-- A whole session of web/src/logResume.ts never hides a line more often than it showed it.
use kd.Common.{
  ◌-◌, ◌≤◌, ◌≡◌, refl, ap, Bool, some, List, [], ◌∷◌, Text, text_eq, text_beq_iff, ◌==◌,
  if◌then◌else◌, Bool-cases, lookup, arith, inl, inr, All, All-mono, subst,
}
use kd.Types.{truthy}
use kd.LogResume.{
  LogEntry, SourceResume, LogResume, Verdict, count_of, set_count, advance, note, verdict, settle,
  accept, opened, source_of, create_log_resume, Step, Session, step, run, new_session,
}
use kd.LogResume.Capacity.{verdict_known}
use kd.LogResume.Resent.{count-set_count, replay-cases}
use kd.LogResume.Counting.{copies, dropped, opened-drops}
use kd.LogResume.Backed.{
  IsBacked, All-insert, All-lookup, copies_grow, advance-IsBacked, remember-All,
}

-- Every count of both maps is of lines that were shown.
pub record AreBacked (t : Session) : Type 0 where
  pub live : All (IsBacked t.displayed) t.resume.live
  pub delivered : All (IsBacked t.displayed) t.resume.delivered

set_count-IsBacked :
    (displayed : List LogEntry) (source line : Text) (r : SourceResume)
    → IsBacked displayed (source, r)
    → IsBacked displayed (source, set_count line (count_of line r - 1) r)
set_count-IsBacked displayed source line r h other = elim (Bool-cases (line == other)) [
  | inl y ↦
      let same : line ≡ other = (text_beq_iff line other).0 y in
      let k : count_of other (set_count line (count_of line r - 1) r) ≡ count_of line r - 1 =
        ground (arith, count-set_count line other (count_of line r - 1) r, y) in
      let j : count_of line r ≡ count_of other r = ap (λ x. count_of x r) same in
      omega (arith, h other)
  | inr n ↦
      let k : count_of other (set_count line (count_of line r - 1) r) ≡ count_of other r =
        ground (arith, count-set_count line other (count_of line r - 1) r, n) in
      omega (arith, h other)
]

-- The session after an entry with a given answer.
abbrev answered : LogEntry → Session → Bool × LogResume → Session
answered e t r = record { displayed = if r.0 then e ∷ t.displayed else t.displayed; resume = r.1 }

settle-AreBacked :
    (v : Verdict) (e : LogEntry) (t : Session)
    → verdict e t.resume ≡ v
    → AreBacked t
    → AreBacked (answered e t (settle v e t.resume))
unfolding note
settle-AreBacked Verdict.stale e t v b = record { live = b.live; delivered = b.delivered }
settle-AreBacked Verdict.fresh e t v b = record {
  live =
      remember-All (IsBacked (e ∷ t.displayed)) (source_of e)
        (advance (lookup (source_of e) t.resume.live) (truthy e.time) e.line) t.resume.live
        (λ r k.
          advance-IsBacked t.displayed e (lookup (source_of e) t.resume.live) r
            (λ q l. All-lookup (IsBacked t.displayed) (source_of e) q t.resume.live b.live l) k)
        (All-mono t.resume.live (copies_grow e t.displayed) b.live);
  delivered = All-mono t.resume.delivered (copies_grow e t.displayed) b.delivered;
}
settle-AreBacked (Verdict.repeated q) e t v b = elim (verdict_known e t.resume) [
  | inl (f, _) ↦ cc
  | inr (w, time, l, m, vr) ↦ elim (replay-cases w time e.line) [
    | inl (_, x) ↦ cc
    | inr (inr (x, _)) ↦ cc
    | inr (inl (p, x, st)) ↦
        let qw : set_count e.line (count_of e.line w - 1) w ≡ q = cc in
        let bw : IsBacked t.displayed (source_of e, w) =
          All-lookup (IsBacked t.displayed) (source_of e) w t.resume.delivered b.delivered l in
        record {
          live = b.live;
          delivered =
              All-insert (IsBacked t.displayed) (source_of e) q t.resume.delivered
                (subst (λ x. IsBacked t.displayed (source_of e, x)) qw
                  (set_count-IsBacked t.displayed (source_of e) e.line w bw))
                b.delivered;
        }
  ]
]

step-AreBacked : (x : Step) (t : Session) → AreBacked t → AreBacked (step x t)
unfolding step opened accept
step-AreBacked Step.open_stream t b = record { live = b.live; delivered = b.live }
step-AreBacked (Step.entry e) t b = settle-AreBacked (verdict e t.resume) e t refl b

run-keeps_backed : (xs : List Step) (t : Session) → AreBacked t → AreBacked (run xs t)
unfolding run
run-keeps_backed [] t b = b
run-keeps_backed (x ∷ xs) t b = run-keeps_backed xs (step x t) (step-AreBacked x t b)

new_session-AreBacked : AreBacked new_session
unfolding create_log_resume
new_session-AreBacked = record { live = tt; delivered = tt }

-- Through any session of entries and reconnections: if the stream is opened again, then of the copies
-- of a line at the last stamp of its source no more are dropped than were shown in the session.
pub run-drops_shown :
    (xs : List Step) (es : List LogEntry) (source line : Text) (r : SourceResume)
    → lookup source (run xs new_session).resume.live ≡ some r
    → dropped source r.stamp line es (opened (run xs new_session).resume)
      ≤ copies source r.stamp line (run xs new_session).displayed
run-drops_shown xs es source line r h =
    let t = run xs new_session in
    let b = run-keeps_backed xs new_session new_session-AreBacked in
    let c = All-lookup (IsBacked t.displayed) source r t.resume.live b.live h line in
    omega (arith, opened-drops t.resume source line r es h)
