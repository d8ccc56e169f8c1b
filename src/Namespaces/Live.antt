-- ===== src/Namespaces/Live.antt =====
-- web/src/liveHealth.ts and the poll generation of clusterSession.ts: the cache of live health.
use kd.Common.{
  sym, Bool, false, ==_refl, ℕ, ◌+◌, ◌≤◌, ◌≡◌, refl, ap, ◌∙◌, true, Option, none, some, List, [],
  ◌∷◌, map, Text, text_eq, text_beq_iff, ◌==◌, if◌then◌else◌, lookup, insert, lookup-insert, arith,
  Bool-cases, Option-cases, inl, inr,
}
use kd.Types.{Health, truthy}
use kd.Namespaces.{NamespaceInfo, LiveHealth, is_text, merge_one, merge_namespace_health}

-- The last push, with the context of its stream.
pub record NsData : Type 0 where
  pub for_ctx : Text
  pub list : List NamespaceInfo

-- The signals that the merge depends on: the context, what the namespaces stream brought, whether it
-- failed, the poll generation, and the cache.
pub record Session : Type 0 where
  pub ctx : Option Text
  pub ns_data : Option NsData
  pub ns_received : Bool
  pub ns_errored : Bool
  pub poll_gen : ℕ
  pub live_by_ns : List (Text × LiveHealth)

-- recordSummary
unfoldable pub record_summary : Text → Text → Health → Option ℕ → Session → Session
record_summary event_ctx ns health non_ready s =
    if is_text s.ctx event_ctx
    then record s {
      live_by_ns =
          insert ns
            (record { health = health; non_ready = non_ready; gen = s.poll_gen; ctx = event_ctx })
            s.live_by_ns;
    }
    else s

-- The handler of a push of the stream that was opened for a context, and the effect that counts the
-- push if that is still the current one; the effect takes it once, when no error stands.
unfoldable pub accept_push : Text → List NamespaceInfo → Session → Session
accept_push for_ctx list s = record s {
  ns_data = some (record { for_ctx = for_ctx; list = list });
  ns_received = true;
  ns_errored = false;
  poll_gen = if is_text s.ctx for_ctx then s.poll_gen + 1 else s.poll_gen;
}

-- The handler of an error of the stream.
unfoldable pub fail : Session → Session
fail s = record s { ns_errored = true }

-- The effect that opens the stream, run for a change of context or a manual reconnect: it resets
-- what the last stream brought, once there is a context.
unfoldable pub resubscribe : Session → Session
resubscribe s = elim (truthy s.ctx) [
  | none ↦ s
  | some c ↦ record s { ns_data = none; ns_received = false; ns_errored = false }
]

unfoldable pub switch_ctx : Option Text → Session → Session
switch_ctx ctx s = resubscribe (record s { ctx = ctx })

abbrev pub list_for : Option Text → Option NsData → List NamespaceInfo
list_for ctx none = []
list_for ctx (some v) = if is_text ctx v.for_ctx then v.list else []

unfoldable pub namespace_list : Session → List NamespaceInfo
namespace_list s = if s.ns_errored then [] else list_for s.ctx s.ns_data

unfoldable pub merged_namespaces : Session → List NamespaceInfo
merged_namespaces s = merge_namespace_health (namespace_list s) s.live_by_ns s.poll_gen s.ctx

pub data Event : Type 0 where
  summary : (event_ctx ns : Text) → Health → Option ℕ → Event
  push : (for_ctx : Text) → List NamespaceInfo → Event
  failure reconnect : Event
  switch : Option Text → Event

unfoldable pub step : Event → Session → Session
step (summary event_ctx ns health non_ready) s = record_summary event_ctx ns health non_ready s
step (push for_ctx list) s = accept_push for_ctx list s
step failure s = fail s
step reconnect s = resubscribe s
step (switch ctx) s = switch_ctx ctx s

unfoldable pub run : List Event → Session → Session
run [] s = s
run (e ∷ es) s = run es (step e s)

abbrev pub opened : Option Text → Session
opened ctx = record {
  ctx = ctx;
  ns_data = none;
  ns_received = false;
  ns_errored = false;
  poll_gen = 0;
  live_by_ns = [];
}

-- No entry comes from a generation that has not begun.
abbrev pub IsDated : Session → Type 0
IsDated s =
    (ns : Text) (live : LiveHealth) → lookup ns s.live_by_ns ≡ some live → live.gen ≤ s.poll_gen

resubscribe-IsDated : (s : Session) → IsDated s → IsDated (resubscribe s)
unfolding resubscribe
resubscribe-IsDated s h ns live l = elim (Option-cases (truthy s.ctx)) [
  | inl e ↦ ground (arith, h ns live, l, e)
  | inr (c, e) ↦ ground (arith, h ns live, l, e)
]

pub step-IsDated : (e : Event) (s : Session) → IsDated s → IsDated (step e s)
unfolding step record_summary accept_push fail switch_ctx
step-IsDated (summary event_ctx name health non_ready) s h ns live l =
    let entry : LiveHealth = record {
      health = health;
      non_ready = non_ready;
      gen = s.poll_gen;
      ctx = event_ctx;
    } in
    ground (arith, h ns live, lookup-insert name ns entry s.live_by_ns)
step-IsDated (push for_ctx list) s h ns live l = ground (arith, h ns live)
step-IsDated failure s h ns live l = h ns live l
step-IsDated reconnect s h ns live l = resubscribe-IsDated s h ns live l
step-IsDated (switch ctx) s h ns live l = resubscribe-IsDated (record s { ctx = ctx }) h ns live l

run-IsDated : (es : List Event) (s : Session) → IsDated s → IsDated (run es s)
unfolding run
run-IsDated [] s h = h
run-IsDated (e ∷ es) s h = run-IsDated es (step e s) (step-IsDated e s h)

pub opened-IsDated : (ctx : Option Text) → IsDated (opened ctx)
unfolding lookup
opened-IsDated ctx ns live h = cc

merge_one-superseded :
    (s : Session) (c : Text) (n : NamespaceInfo)
    → IsDated s
    → merge_one s.live_by_ns (s.poll_gen + 1) (some c) n ≡ n
unfolding merge_one
merge_one-superseded s c n dated = elim (Option-cases (lookup n.name s.live_by_ns)) [
  | inl e ↦ ground arith
  | inr (live, e) ↦ ground (arith, dated n.name live e)
]

map-id :
    (f : NamespaceInfo → NamespaceInfo) (xs : List NamespaceInfo)
    → ((n : NamespaceInfo) → f n ≡ n)
    → map f xs ≡ xs
map-id f [] h = refl
map-id f (x ∷ xs) h = ap (λ y. y ∷ map f xs) (h x) ∙ ap (λ l. x ∷ l) (map-id f xs h)

after_push :
    (s : Session) (c : Text) (list : List NamespaceInfo)
    → IsDated s
    → s.ctx ≡ some c
    → merged_namespaces (accept_push c list s) ≡ list
unfolding merged_namespaces namespace_list accept_push merge_namespace_health
after_push s c list dated h =
    let same : is_text s.ctx c ≡ true = ap (λ o. is_text o c) h ∙ ==_refl c in
    rw same (
      map-id (merge_one s.live_by_ns (s.poll_gen + 1) s.ctx) list (λ n.
        ap (λ x. merge_one s.live_by_ns (s.poll_gen + 1) x n) h ∙ merge_one-superseded s c n dated))

is_text-eq : (o : Option Text) (c : Text) → is_text o c ≡ true → o ≡ some c
is_text-eq none c h = cc
is_text-eq (some d) c h = ground (arith, text_beq_iff c d)

stale_push :
    (s : Session) (c : Text) (list : List NamespaceInfo)
    → is_text s.ctx c ≡ false
    → merged_namespaces (accept_push c list s) ≡ []
unfolding merged_namespaces namespace_list accept_push merge_namespace_health
stale_push s c list h = rw h refl

-- Whatever events came before, right after a push the merged list is exactly the pushed one if the
-- push is for the current context, each live summary being superseded by it, and else it is empty.
pub merged-after-push :
    (es : List Event) (ctx : Option Text) (c : Text) (list : List NamespaceInfo)
    → merged_namespaces (accept_push c list (run es (opened ctx)))
      ≡ (if is_text (run es (opened ctx)).ctx c then list else [])
merged-after-push es ctx c list = elim (Bool-cases (is_text (run es (opened ctx)).ctx c)) [
  | inl e ↦
      after_push (run es (opened ctx)) c list (run-IsDated es (opened ctx) (opened-IsDated ctx))
        (is_text-eq (run es (opened ctx)).ctx c e)
      ∙ sym (rw e refl)
  | inr e ↦ stale_push (run es (opened ctx)) c list e ∙ sym (rw e refl)
]

-- A summary for the current context shows at once in the rows of its namespace and in no other row.
pub merge_one-summary :
    (c ns : Text) (health : Health) (non_ready : Option ℕ) (s : Session) (n : NamespaceInfo)
    → s.ctx ≡ some c
    → merge_one (record_summary c ns health non_ready s).live_by_ns s.poll_gen s.ctx n ≡ (
        if ns == n.name
        then record n { health = health; non_ready = non_ready }
        else merge_one s.live_by_ns s.poll_gen s.ctx n)
unfolding merge_one record_summary
merge_one-summary c ns health non_ready s n h = ground (
  arith,
  text_beq_iff c c,
  lookup-insert ns n.name
      (let entry : LiveHealth = record {
        health = health;
        non_ready = non_ready;
        gen = s.poll_gen;
        ctx = c;
      } in
        entry)
      s.live_by_ns,
)
