-- ===== src/Subscription/Scope.antt =====
-- What web/src/graphSubscription.ts selects and clears when the scope or the snapshot changes.
use kd.Common.{
  ◌≡◌, refl, ap, ◌∙◌, false, none, some, [], Text, text_eq, arith, if◌then◌else◌, not, ◌==◌,
  Bool-cases, inl, inr,
}
use kd.Subscription.{Client, open_scope, has_changed}

open_scope-selected :
    (c ns : Text) (s : Client)
    → (open_scope c ns s).selected_id
      ≡ (if has_changed s.last_subscribed_ctx c then none else s.selected_id)
unfolding open_scope
open_scope-selected c ns s = elim (Bool-cases s.first_subscribe) [
  | inl h ↦ ground (arith, h)
  | inr h ↦ ground (arith, h)
]

open_scope-last : (c ns : Text) (s : Client) → (open_scope c ns s).last_subscribed_ctx ≡ some c
unfolding open_scope
open_scope-last c ns s = elim (Bool-cases s.first_subscribe) [
  | inl h ↦ ground (arith, h)
  | inr h ↦ ground (arith, h)
]

select_again :
    (c d ns ms : Text) (s : Client)
    → (open_scope d ms (open_scope c ns s)).selected_id
      ≡ (if not (c == d) then none else (open_scope c ns s).selected_id)
select_again c d ns ms s =
    open_scope-selected d ms (open_scope c ns s)
    ∙ ap (λ o. if has_changed o d then none else (open_scope c ns s).selected_id)
        (open_scope-last c ns s)

cleared :
    (c ns : Text) (s : Client)
    → s.first_subscribe ≡ false
    → let t = open_scope c ns s in
      (t.search ≡ []) × (t.health_filter ≡ none) × (t.kind_filter ≡ []) × (t.selection_history ≡ [])
unfolding open_scope
cleared c ns s h = rw h (refl, refl, refl, refl)

not_first : (c ns : Text) (s : Client) → (open_scope c ns s).first_subscribe ≡ false
unfolding open_scope
not_first c ns s = refl

-- A second subscription, of whatever scope, drops the search, the filters and the history; it drops
-- the selection just when it is of another context.
pub resubscribe_lem :
    (c d ns ms : Text) (s : Client)
    → let t = open_scope d ms (open_scope c ns s) in
      ((t.search ≡ [])
        × (t.health_filter ≡ none)
        × (t.kind_filter ≡ [])
        × (t.selection_history ≡ []))
      × (t.selected_id ≡ (if c == d then (open_scope c ns s).selected_id else none))
resubscribe_lem c d ns ms s =
    (cleared d ms (open_scope c ns s) (not_first c ns s), ground (arith, select_again c d ns ms s))
