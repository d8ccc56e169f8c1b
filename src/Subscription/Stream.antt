-- ===== src/Subscription/Stream.antt =====
-- The handlers of web/src/graphSubscription.ts over a whole stream of events.
use kd.Common.{
  ℕ, suc, min, refl, ◌+◌, ◌≤◌, ◌≡◌, none, some, List, [], ◌∷◌, Text, text_eq, arith, Bool-cases,
  Option-cases, inl, inr, if◌then◌else◌,
}
use kd.Types.{KNode, KGraph}
use kd.Subscription.{
  Client, StreamEvent, take_snapshot, is_offline, open_scope, handle, deliver, deliver_all,
}

-- One for a snapshot.
abbrev pub weight : StreamEvent → ℕ
weight (StreamEvent.snapshot g) = 1
weight (StreamEvent.patch p) = 0
weight (StreamEvent.summary m) = 0
weight (StreamEvent.capacity cap) = 0
weight StreamEvent.error = 0

-- The number of snapshots among the events.
abbrev pub snapshots : List StreamEvent → ℕ
snapshots [] = 0
snapshots (ev ∷ evs) = weight ev + snapshots evs

-- One while an error would refetch.
abbrev slack : Client → ℕ
slack s = if is_offline s.conn_state then 0 else 1

slack_le : (s : Client) → slack s ≤ 1
slack_le s = elim (Bool-cases (is_offline s.conn_state)) [
  | inl h ↦ ground (arith, h)
  | inr h ↦ ground (arith, h)
]

deliver-refetches :
    (c ns : Text) (ev : StreamEvent) (s : Client)
    → (deliver c ns ev s).refetches + slack (deliver c ns ev s) ≤ s.refetches + slack s + weight ev
unfolding deliver handle take_snapshot
deliver-refetches c ns (StreamEvent.snapshot g) s = elim (Option-cases g.nodes) [
  | inl h ↦ ground (arith, h)
  | inr (ns, h) ↦ ground (arith, h, slack_le s)
]
deliver-refetches c ns (StreamEvent.patch p) s = omega arith
deliver-refetches c ns (StreamEvent.summary m) s = omega arith
deliver-refetches c ns (StreamEvent.capacity cap) s = omega arith
deliver-refetches c ns StreamEvent.error s = ground arith

refetches_from :
    (c ns : Text) (evs : List StreamEvent) (s : Client)
    → (deliver_all c ns evs s).refetches ≤ s.refetches + slack s + snapshots evs
unfolding deliver_all
refetches_from c ns [] s = omega arith
refetches_from c ns (ev ∷ evs) s =
    omega (arith, deliver-refetches c ns ev s, refetches_from c ns evs (deliver c ns ev s))

-- One for an error.
abbrev pub failing : StreamEvent → ℕ
failing (StreamEvent.snapshot g) = 0
failing (StreamEvent.patch p) = 0
failing (StreamEvent.summary m) = 0
failing (StreamEvent.capacity d) = 0
failing StreamEvent.error = 1

-- The number of errors among the events.
abbrev pub errors : List StreamEvent → ℕ
errors [] = 0
errors (ev ∷ evs) = failing ev + errors evs

deliver-errors :
    (c ns : Text) (ev : StreamEvent) (s : Client)
    → (deliver c ns ev s).refetches ≤ s.refetches + failing ev
unfolding deliver handle take_snapshot
deliver-errors c ns (StreamEvent.snapshot g) s = elim (Option-cases g.nodes) [
  | inl h ↦ ground (arith, h)
  | inr (ns, h) ↦ ground (arith, h)
]
deliver-errors c ns (StreamEvent.patch p) s = omega arith
deliver-errors c ns (StreamEvent.summary m) s = omega arith
deliver-errors c ns (StreamEvent.capacity d) s = omega arith
deliver-errors c ns StreamEvent.error s = ground arith

errors_from :
    (c ns : Text) (evs : List StreamEvent) (s : Client)
    → (deliver_all c ns evs s).refetches ≤ s.refetches + errors evs
unfolding deliver_all
errors_from c ns [] s = omega arith
errors_from c ns (ev ∷ evs) s =
    omega (arith, deliver-errors c ns ev s, errors_from c ns evs (deliver c ns ev s))

-- A refetch that is due is made by this event, or is due after it as well.
deliver-due :
    (c ns : Text) (ev : StreamEvent) (s : Client) (later : ℕ)
    → s.refetches + min (slack s) (failing ev + later)
      ≤ (deliver c ns ev s).refetches + min (slack (deliver c ns ev s)) later
unfolding deliver handle take_snapshot
deliver-due c ns (StreamEvent.snapshot g) s later = elim (Option-cases g.nodes) [
  | inl h ↦ ground (arith, h)
  | inr (ns, h) ↦ ground (arith, h, slack_le s)
]
deliver-due c ns (StreamEvent.patch p) s later = ground arith
deliver-due c ns (StreamEvent.summary m) s later = ground arith
deliver-due c ns (StreamEvent.capacity d) s later = ground arith
deliver-due c ns StreamEvent.error s later = ground arith

due_from :
    (c ns : Text) (evs : List StreamEvent) (s : Client)
    → s.refetches + min (slack s) (errors evs) ≤ (deliver_all c ns evs s).refetches
unfolding deliver_all
due_from c ns [] s = omega arith
due_from c ns (ev ∷ evs) s =
    omega (arith, deliver-due c ns ev s (errors evs), due_from c ns evs (deliver c ns ev s))

open_scope-due :
    (c ns : Text) (s : Client)
    → (slack (open_scope c ns s) ≡ 1) × ((open_scope c ns s).refetches ≡ s.refetches)
unfolding open_scope
open_scope-due c ns s = (refl, ground arith)

-- While the stream of a scope that was just opened runs, the contexts are refetched at least once if it
-- reports an error, and, however many errors it reports, at most once for each and at most once more than
-- it delivers snapshots.
pub deliver_all-refetches :
    (c ns : Text) (evs : List StreamEvent) (s : Client)
    → let t = deliver_all c ns evs (open_scope c ns s) in
      (s.refetches + min 1 (errors evs) ≤ t.refetches)
      × (t.refetches ≤ s.refetches + min (errors evs) (suc (snapshots evs)))
deliver_all-refetches c ns evs s =
    let o = open_scope c ns s in
    let (ready, same) = open_scope-due c ns s in
    (
      omega (arith, due_from c ns evs o, ready, same),
      omega (arith, errors_from c ns evs o, refetches_from c ns evs o, ready, same),
    )

pub deliver-null :
    (c ns : Text) (g : KGraph) (s : Client)
    → g.nodes ≡ none
    → deliver c ns (StreamEvent.snapshot g) s ≡ s
unfolding deliver handle
deliver-null c ns g s h = rw h

pub deliver-snapshot :
    (c ns : Text) (g : KGraph) (nodes : List KNode) (s : Client)
    → g.nodes ≡ some nodes
    → deliver c ns (StreamEvent.snapshot g) s ≡ take_snapshot g nodes s
unfolding deliver handle
deliver-snapshot c ns g nodes s h = rw h
