-- ===== src/Namespaces/Rows.antt =====
-- The rows that web/src/liveHealth.ts merges, as what the history of events says of each namespace.
use kd.Common.{
  ◌+◌, ◌≤◌, ◌≡◌, refl, ap, ◌∙◌, Option, none, some, List, [], ◌∷◌, map, Text, text_eq, ◌==◌, ℕ,
  if◌then◌else◌, ◌&&◌, leb, lookup, lookup-insert, arith, Bool-cases, inl, inr,
}
use mathlib.Core.Path.{fun_ext}
use kd.Types.{Health}
use kd.Namespaces.{NamespaceInfo, LiveHealth, is_text, winner, merge_one, merge_namespace_health}
use kd.Namespaces.Live.{
  Session, Event, summary, push, failure, reconnect, switch, step, opened, IsDated, step-IsDated,
  opened-IsDated, record_summary, accept_push, fail, resubscribe, switch_ctx, namespace_list,
  merged_namespaces,
}

-- The session after a history of events, the newest first.
abbrev pub after : Option Text → List Event → Session
after start [] = opened start
after start (e ∷ before) = step e (after start before)

-- The context that was switched to last.
abbrev pub current_ctx : Option Text → List Event → Option Text
current_ctx start [] = start
current_ctx start (switch ctx ∷ before) = ctx
current_ctx start (summary event_ctx ns h non_ready ∷ before) = current_ctx start before
current_ctx start (push for_ctx list ∷ before) = current_ctx start before
current_ctx start (failure ∷ before) = current_ctx start before
current_ctx start (reconnect ∷ before) = current_ctx start before

-- A summary, with the context of its stream.
pub record Told : Type 0 where
  pub ctx : Text
  pub health : Health
  pub non_ready : Option ℕ

-- The newest summary of the namespace that came in while the context of its stream was the current one,
-- unless a list that was pushed for the context current at that time is newer.
abbrev pub told : Option Text → Text → List Event → Option Told
told start name [] = none
told start name (summary event_ctx ns h non_ready ∷ before) =
    if is_text (current_ctx start before) event_ctx && ns == name
    then some (record { ctx = event_ctx; health = h; non_ready = non_ready })
    else told start name before
told start name (push for_ctx list ∷ before) =
    if is_text (current_ctx start before) for_ctx then none else told start name before
told start name (failure ∷ before) = told start name before
told start name (reconnect ∷ before) = told start name before
told start name (switch ctx ∷ before) = told start name before

-- The polled row, with the health that was told if that is of the current context.
abbrev pub row : Option Text → Option Told → NamespaceInfo → NamespaceInfo
row ctx none n = n
row ctx (some t) n =
    if is_text ctx t.ctx then record n { health = t.health; non_ready = t.non_ready } else n

after-IsDated : (start : Option Text) (history : List Event) → IsDated (after start history)
after-IsDated start [] = opened-IsDated start
after-IsDated start (e ∷ before) = step-IsDated e (after start before) (after-IsDated start before)

after-ctx :
    (start : Option Text) (history : List Event)
    → (after start history).ctx ≡ current_ctx start history
unfolding step record_summary accept_push fail resubscribe switch_ctx
after-ctx start [] = refl
after-ctx start (switch ctx ∷ before) = ground arith
after-ctx start (summary event_ctx ns h non_ready ∷ before) = ground (arith, after-ctx start before)
after-ctx start (push for_ctx list ∷ before) = after-ctx start before
after-ctx start (failure ∷ before) = after-ctx start before
after-ctx start (reconnect ∷ before) = ground (arith, after-ctx start before)

-- A cached entry that no poll has superseded.
abbrev standing : Option LiveHealth → ℕ → Option Told
standing none gen = none
standing (some l) gen =
    if leb gen l.gen
    then some (record { ctx = l.ctx; health = l.health; non_ready = l.non_ready })
    else none

resubscribe-live :
    (s : Session)
    → ((resubscribe s).live_by_ns ≡ s.live_by_ns) × ((resubscribe s).poll_gen ≡ s.poll_gen)
unfolding resubscribe
resubscribe-live s = (ground arith, ground arith)

standing-poll :
    (o : Option LiveHealth) (gen : ℕ)
    → ((l : LiveHealth) → o ≡ some l → l.gen ≤ gen)
    → standing o (gen + 1) ≡ none
standing-poll none gen h = refl
standing-poll (some l) gen h = ground (arith, h l refl)

-- The summary that the session holds for a name, in a state.
abbrev held : Text → Session → Option Told
held name s = standing (lookup name s.live_by_ns) s.poll_gen

held-summary :
    (name event_ctx ns : Text) (h : Health) (non_ready : Option ℕ) (s : Session)
    → held name (record_summary event_ctx ns h non_ready s) ≡ (
        if is_text s.ctx event_ctx && ns == name
        then some (record { ctx = event_ctx; health = h; non_ready = non_ready })
        else held name s)
unfolding record_summary
held-summary name event_ctx ns h non_ready s =
    let entry : LiveHealth = record {
      health = h;
      non_ready = non_ready;
      gen = s.poll_gen;
      ctx = event_ctx;
    } in
    elim (Bool-cases (is_text s.ctx event_ctx)) [
      | inr other ↦ rw other refl
      | inl same ↦ rw same (elim (Bool-cases (ns == name)) [
        | inl this ↦ ground (arith, this, lookup-insert ns name entry s.live_by_ns)
        | inr that ↦ ground (arith, that, lookup-insert ns name entry s.live_by_ns)
      ])
    ]

held-push :
    (name for_ctx : Text) (list : List NamespaceInfo) (s : Session)
    → IsDated s
    → held name (accept_push for_ctx list s) ≡ (if is_text s.ctx for_ctx then none else held name s)
unfolding accept_push
held-push name for_ctx list s dated = elim (Bool-cases (is_text s.ctx for_ctx)) [
  | inl same ↦ rw same (standing-poll (lookup name s.live_by_ns) s.poll_gen (dated name))
  | inr other ↦ rw other refl
]

held-resubscribe : (name : Text) (s : Session) → held name (resubscribe s) ≡ held name s
held-resubscribe name s = rw ((resubscribe-live s).0, (resubscribe-live s).1) refl

held-told :
    (start : Option Text) (name : Text) (history : List Event)
    → held name (after start history) ≡ told start name history
unfolding step fail switch_ctx lookup
held-told start name [] = refl
held-told start name (switch ctx ∷ before) =
    held-resubscribe name (record (after start before) { ctx = ctx }) ∙ held-told start name before
held-told start name (summary event_ctx ns h non_ready ∷ before) =
    held-summary name event_ctx ns h non_ready (after start before)
    ∙ rw (after-ctx start before, held-told start name before) refl
held-told start name (push for_ctx list ∷ before) =
    held-push name for_ctx list (after start before) (after-IsDated start before)
    ∙ rw (after-ctx start before, held-told start name before) refl
held-told start name (failure ∷ before) = held-told start name before
held-told start name (reconnect ∷ before) =
    held-resubscribe name (after start before) ∙ held-told start name before

shown-row :
    (o : Option LiveHealth) (gen : ℕ) (ctx : Option Text) (n : NamespaceInfo)
    → (elim (winner o gen ctx) [
      | none ↦ n
      | some live ↦ record n { health = live.health; non_ready = live.non_ready }
    ])
      ≡ row ctx (standing o gen) n
shown-row none gen ctx n = refl
shown-row (some l) gen ctx n = ground arith

merge_one-row :
    (s : Session) (n : NamespaceInfo)
    → merge_one s.live_by_ns s.poll_gen s.ctx n ≡ row s.ctx (held n.name s) n
unfolding merge_one
merge_one-row s n = ground (arith, shown-row (lookup n.name s.live_by_ns) s.poll_gen s.ctx n)

map-row :
    (f g : NamespaceInfo → NamespaceInfo) (xs : List NamespaceInfo)
    → ((n : NamespaceInfo) → f n ≡ g n)
    → map f xs ≡ map g xs
map-row f g xs h = ap (λ r. map r xs) (fun_ext h)

-- After any history of events, the merged list is the polled one, in which each row shows what was told
-- of its namespace, if that is of the context current now, and else what was polled. Told is the newest
-- summary of the namespace that came in while the context of its stream was the current one, unless a
-- list that was pushed for the context current at that time is newer.
pub merged_namespaces-told :
    (start : Option Text) (history : List Event)
    → merged_namespaces (after start history)
      ≡ map
          (λ n. row (current_ctx start history) (told start n.name history) n)
          (namespace_list (after start history))
unfolding merged_namespaces merge_namespace_health
merged_namespaces-told start history =
    let s = after start history in
    map-row (merge_one s.live_by_ns s.poll_gen s.ctx)
      (λ n. row (current_ctx start history) (told start n.name history) n) (namespace_list s)
      (λ n. merge_one-row s n ∙ rw (after-ctx start history, held-told start n.name history) refl)
