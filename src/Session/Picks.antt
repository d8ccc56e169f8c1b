-- ===== src/Session/Picks.antt =====
-- Where clusterSession.ts lands: the namespace is one of the list, the context one of the contexts.
use kd.Common.{
  ◌≡◌, ◌≢◌, refl, sym, ap, ◌∙◌, subst, true, Option, none, some, List, [], ◌∷◌, Text, text_eq,
  is_nil, any, Ordering, IsComparator, arith, Bool-cases, ◌+◌, List-cases, inl, inr, ◌⊎◌,
  text_beq_iff,
}
use kd.Namespaces.{NamespaceInfo, keep, is_named, decide_namespace_pick}
use kd.Namespaces.Landing.{decide_namespace_pick-settles}
use kd.Namespaces.Live.{
  Session, namespace_list, switch_ctx, accept_push, fail, resubscribe, record_summary,
}
use kd.Session.{
  Cluster, ClusterEvent, ContextsRes, contexts_info, is_known, same_ctx, set_ctx, resolve_ctx,
  resolve, on_contexts, on_stream_error, pick_namespace, jump_to_trouble, handle, react, react_all,
  booted, note_ns_fallback,
}

-- The namespace is in the list, or the list is empty.
abbrev pub IsPlaced : Cluster → Type 0
IsPlaced s =
    (is_nil (namespace_list s.session) ≡ true)
    ⊎ (any (is_named s.namespace) (namespace_list s.session) ≡ true)

-- Once the contexts are loaded, the context is one of them or their default.
abbrev pub IsResolved : ContextsRes → Option Text → Type 0
IsResolved res ctx = elim (contexts_info res) [
  | none ↦ Unit
  | some info ↦ (is_known info ctx ≡ true) ⊎ (ctx ≡ some info.default)
]

pub record IsSettled (s : Cluster) : Type 0 where
  pub placed : IsPlaced s
  pub resolved : IsResolved s.contexts s.session.ctx

resolve_ctx-IsResolved :
    (res : ContextsRes) (ctx : Option Text) → IsResolved res (resolve_ctx res ctx)
unfolding contexts_info resolve_ctx
resolve_ctx-IsResolved ContextsRes.pending ctx = tt
resolve_ctx-IsResolved (ContextsRes.failed status) ctx = tt
resolve_ctx-IsResolved (ContextsRes.ready info) ctx = elim (Bool-cases (is_known info ctx)) [
  | inl known ↦ rw known (inl known)
  | inr unknown ↦ rw unknown (inr refl)
]

same_ctx-eq : (c d : Option Text) → same_ctx c d ≡ true → c ≡ d
same_ctx-eq none none h = refl
same_ctx-eq none (some d) h = cc
same_ctx-eq (some c) none h = cc
same_ctx-eq (some c) (some d) h = ground (arith, text_beq_iff c d)

switch_ctx-ctx : (ctx : Option Text) (s : Session) → (switch_ctx ctx s).ctx ≡ ctx
unfolding switch_ctx resubscribe
switch_ctx-ctx ctx s = ground arith

set_ctx-ctx : (ctx : Option Text) (s : Cluster) → (set_ctx ctx s).session.ctx ≡ ctx
unfolding set_ctx
set_ctx-ctx ctx s = ground (arith, same_ctx-eq s.session.ctx ctx, switch_ctx-ctx ctx s.session)

set_ctx-contexts : (ctx : Option Text) (s : Cluster) → (set_ctx ctx s).contexts ≡ s.contexts
unfolding set_ctx
set_ctx-contexts ctx s = ground arith

Resolved : Cluster → Type 0
Resolved s = IsResolved s.contexts s.session.ctx

resolve-Resolved : (s : Cluster) → Resolved (resolve s)
unfolding Resolved resolve
resolve-Resolved s =
    rw
      (
        set_ctx-contexts (resolve_ctx s.contexts s.session.ctx) s,
        set_ctx-ctx (resolve_ctx s.contexts s.session.ctx) s,
      )
      (resolve_ctx-IsResolved s.contexts s.session.ctx)

kept :
    (s t : Cluster)
    → s.contexts ≡ t.contexts
    → s.session.ctx ≡ t.session.ctx
    → Resolved s
    → Resolved t
unfolding Resolved
kept s t e f h = subst (λ r. IsResolved r t.session.ctx) e (subst (IsResolved s.contexts) f h)

module _ (locale_compare : Text → Text → Ordering) where
  handle-Resolved :
      (e : ClusterEvent) (s : Cluster) → Resolved s → Resolved (handle locale_compare e s)
  unfolding handle on_contexts on_stream_error jump_to_trouble fail resubscribe accept_push
      record_summary
  handle-Resolved (ClusterEvent.contexts res) s h = resolve-Resolved _
  handle-Resolved (ClusterEvent.choose_ctx ctx) s h = resolve-Resolved _
  handle-Resolved (ClusterEvent.choose_namespace ns) s h = kept s _ refl refl h
  handle-Resolved (ClusterEvent.push for_ctx list) s h = kept s _ refl refl h
  handle-Resolved (ClusterEvent.summary event_ctx ns worst non_ready) s h =
      kept s _ refl (ground arith) h
  handle-Resolved ClusterEvent.stream_error s h = kept s _ (ground arith) (ground arith) h
  handle-Resolved ClusterEvent.reconnect s h = kept s _ refl (ground arith) h
  handle-Resolved ClusterEvent.jump s h = kept s _ (ground arith) (ground arith) h
  handle-Resolved ClusterEvent.notice_over s h = kept s _ refl refl h
  handle-Resolved (ClusterEvent.connection state) s h = kept s _ refl refl h

ne_nil {ℓ} : {A : Type ℓ} (x : A) (xs : List A) → x ∷ xs ≢ []
ne_nil x xs h = cc

module _ (locale_compare : Text → Text → Ordering) (c : IsComparator locale_compare) where
  keeps-named :
      (list : List NamespaceInfo) (ns ctx resolved : Option Text)
      → decide_namespace_pick locale_compare list ns ctx resolved ≡ keep
      → any (is_named ns) list ≡ true
  unfolding decide_namespace_pick
  keeps-named list ns ctx resolved h = ground arith

  -- The picker does not throw, whatever the state, and settles what it finds.
  pick_namespace-settles :
      (s : Cluster)
      → Resolved s
      → (t : Cluster) × (pick_namespace locale_compare s ≡ some t) × IsSettled t
  unfolding pick_namespace Resolved
  pick_namespace-settles s h = elim (List-cases (namespace_list s.session)) [
    | inl nothing ↦
        (s, rw (ap is_nil nothing) refl, record { placed = inl (ap is_nil nothing); resolved = h })
    | inr (n, ns, e) ↦
        let filled = λ (k : namespace_list s.session ≡ []). ne_nil n ns (sym e ∙ k) in
        (elim (decide_namespace_pick-settles locale_compare c (namespace_list s.session) s.namespace
          s.session.ctx s.ns_resolved_ctx filled) [
            | inl keeps ↦ (
              record s { ns_resolved_ctx = s.session.ctx },
              rw (ap is_nil e) (rw keeps refl),
              record { placed = inr (keeps-named _ _ _ _ keeps); resolved = h },
            )
            | inr (p, picks, stays, notifies) ↦ (
              record s {
                ns_notice = note_ns_fallback p.notify s.namespace s.ns_notice;
                namespace = some p.name;
                ns_flash = s.ns_flash + 1;
                ns_resolved_ctx = s.session.ctx;
              },
              rw (ap is_nil e) (rw picks refl),
              record {
                placed = inr (keeps-named _ _ _ _ (stays s.session.ctx s.ns_resolved_ctx));
                resolved = h;
              },
            )
          ])
  ]

  -- From a settled client, the effects run through and leave a settled one.
  pub react_all-IsSettled :
      (es : List ClusterEvent) (s : Cluster)
      → IsSettled s
      → (t : Cluster) × (react_all locale_compare es s ≡ some t) × IsSettled t
  unfolding react_all react Resolved
  react_all-IsSettled [] s h = (s, refl, h)
  react_all-IsSettled (e ∷ es) s h =
      let (u, reacts, settled) =
        pick_namespace-settles (handle locale_compare e s)
          (handle-Resolved locale_compare e s h.resolved) in
      let (t, rest, k) = react_all-IsSettled es u settled in (t, rw (reacts, react_all) rest, k)

  booted-IsSettled : (ctx namespace : Option Text) → IsSettled (booted ctx namespace)
  unfolding namespace_list contexts_info
  booted-IsSettled ctx namespace = record { placed = inl refl; resolved = tt }

  -- From the start of the client, for a URL of any context and namespace and a host whose collation is
  -- consistent: whatever the server sends and the user does, in any order, no run of the effects throws;
  -- and after the events the namespace is one of the current list, unless that is empty, and the context
  -- is one of the loaded contexts or their default.
  pub booted-react_all :
      (es : List ClusterEvent) (ctx namespace : Option Text)
      → (t : Cluster) × (react_all locale_compare es (booted ctx namespace) ≡ some t) × IsSettled t
  booted-react_all es ctx namespace =
      react_all-IsSettled es (booted ctx namespace) (booted-IsSettled ctx namespace)
