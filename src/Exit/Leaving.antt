-- ===== src/Exit/Leaving.antt =====
-- A card that leaves the layout fades out, and then is gone (exitAnimation.ts).
use kd.Common.{
  ℕ, zero, suc, get_elem?, ◌≡◌, refl, true, false, not, ◌&&◌, ◌||◌, some, List, [], ◌∷◌, map,
  map-append, Text, text_eq, ◌==◌, filter, contains, contains-add, contains-append, contains-remove,
  add, arith, All, All-append, Occurs, text_beq_iff, ==_refl,
}
use kd.Layout.{PositionedNode}
use kd.Exit.{
  Exit, ExitEvent, no_exit, card_ids, is_card, has_left, start_timers, on_layout, on_timer, step,
  run,
}

-- The cards that fade are those with a timer, and no pill is among them.
pub record IsTimed (e : Exit) : Type 0 where
  pub timed : (k : Text) → contains (card_ids e.exiting) k ≡ contains e.timers k
  pub cards : All (λ n. is_card n ≡ true) e.exiting

contains-start_timers :
    (ns : List PositionedNode) (timers : List Text) (k : Text)
    → contains (start_timers ns timers) k ≡ (contains timers k || contains (card_ids ns) k)
unfolding start_timers contains
contains-start_timers [] timers k = ground arith
contains-start_timers (n ∷ ns) timers k =
    ground
      (arith, contains-start_timers ns (add timers n.node.id) k, contains-add timers n.node.id k)

left-cards :
    (cur : List PositionedNode) (timers : List Text) (ns : List PositionedNode)
    → All (λ n. is_card n ≡ true) (filter (has_left cur timers) ns)
unfolding has_left
left-cards cur timers [] = tt
left-cards cur timers (n ∷ ns) = ground (arith, left-cards cur timers ns)

kept-ids :
    (id k : Text) (ns : List PositionedNode)
    → contains (card_ids (filter (λ p. not (p.node.id == id)) ns)) k
      ≡ (contains (card_ids ns) k && not (id == k))
unfolding contains
kept-ids id k [] = refl
kept-ids id k (n ∷ ns) = ground (
  arith,
  kept-ids id k ns,
  text_beq_iff n.node.id id,
  text_beq_iff n.node.id k,
  text_beq_iff id k,
)

kept-cards :
    (id : Text) (ns : List PositionedNode)
    → All (λ n. is_card n ≡ true) ns
    → All (λ n. is_card n ≡ true) (filter (λ p. not (p.node.id == id)) ns)
kept-cards id [] h = tt
kept-cards id (n ∷ ns) h = ground (arith, kept-cards id ns h.1, h.0)

step-IsTimed : (x : ExitEvent) (e : Exit) → IsTimed e → IsTimed (step x e)
unfolding step on_layout on_timer
step-IsTimed (ExitEvent.layout cur) e h =
    let removed = filter (has_left cur e.timers) e.prev_positioned in
    record {
      timed = λ k. ground (
        arith,
        h.timed k,
        map-append (λ (n : PositionedNode). n.node.id) e.exiting removed,
        contains-append (card_ids e.exiting) (card_ids removed) k,
        contains-start_timers removed e.timers k,
      );
      cards = All-append _ e.exiting removed h.cards (left-cards cur e.timers e.prev_positioned);
    }
step-IsTimed (ExitEvent.timer id) e h = record {
  timed = λ k. ground (arith, h.timed k, kept-ids id k e.exiting, contains-remove e.timers id k);
  cards = kept-cards id e.exiting h.cards;
}

run-IsTimed : (xs : List ExitEvent) (e : Exit) → IsTimed e → IsTimed (run xs e)
unfolding run
run-IsTimed [] e h = h
run-IsTimed (x ∷ xs) e h = run-IsTimed xs (step x e) (step-IsTimed x e h)

-- The timers of the ids end, one after the other.
abbrev pub time_out : List Text → Exit → Exit
time_out ids e = run (map ExitEvent.timer ids) e

faded-out :
    (ids : List Text) (e : Exit) (k : Text)
    → contains (card_ids (time_out ids e).exiting) k
      ≡ (contains (card_ids e.exiting) k && not (contains ids k))
unfolding run step on_timer contains
faded-out [] e k = ground arith
faded-out (id ∷ ids) e k = ground (arith, faded-out ids (on_timer id e) k, kept-ids id k e.exiting)

none_left : (ns : List PositionedNode) → ((k : Text) → contains (card_ids ns) k ≡ false) → ns ≡ []
unfolding contains
none_left [] h = refl
none_left (n ∷ ns) h = absurd (ground (arith, h n.node.id, ==_refl n.node.id))

leaves-exiting :
    (cur : List PositionedNode) (timers : List Text) (ns : List PositionedNode) (i : ℕ)
    (n : PositionedNode)
    → get_elem? ns i ≡ some n
    → has_left cur timers n ≡ true
    → contains (card_ids (filter (has_left cur timers) ns)) n.node.id ≡ true
unfolding contains
leaves-exiting cur timers [] i n at h = cc
leaves-exiting cur timers (x ∷ ns) zero n at h =
    let same : x ≡ n = cc in rw (same, h) (ground (arith, ==_refl n.node.id))
leaves-exiting cur timers (x ∷ ns) (suc i) n at h =
    ground (arith, leaves-exiting cur timers ns i n at h)

-- After any changes of the layout and ends of timers, the cards that fade are exactly those with a
-- pending timer, and none is a pill; once those timers end, no card fades; and a card that the next
-- layout lacks fades.
pub run-leaves :
    (xs : List ExitEvent)
    → let e = run xs no_exit in
      IsTimed e
      × ((time_out e.timers e).exiting ≡ [])
      × ((cur : List PositionedNode) (n : PositionedNode)
          → Occurs n e.prev_positioned
          → is_card n ≡ true
          → contains (card_ids cur) n.node.id ≡ false
          → contains (card_ids (on_layout cur e).exiting) n.node.id ≡ true)
unfolding contains on_layout has_left
run-leaves xs =
    let e = run xs no_exit in
    let timed = run-IsTimed xs no_exit (record { timed = λ k. refl; cards = tt }) in
    (
      timed,
      none_left (time_out e.timers e).exiting
          (λ k. ground (arith, faded-out e.timers e k, timed.timed k)),
      λ cur n (i, at) card gone.
          let removed = filter (has_left cur e.timers) e.prev_positioned in
          ground (
            arith,
            map-append (λ (m : PositionedNode). m.node.id) e.exiting removed,
            contains-append (card_ids e.exiting) (card_ids removed) n.node.id,
            timed.timed n.node.id,
            leaves-exiting cur e.timers e.prev_positioned i n at,
          ),
    )
