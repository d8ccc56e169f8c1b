-- ===== src/Session.antt =====
-- web/src/clusterSession.ts: the bootstrap, the connection ladder and the choice of the namespace,
-- around the session of Namespaces.Live.
pub mod Picks
use kd.Common.{
  ℕ, ◌+◌, Bool, true, false, not, ◌&&◌, ◌||◌, Option, none, some, List, [], ◌∷◌, ◌++◌, Text, text,
  text_eq, Eq, nat_eq, ◌==◌, if◌then◌else◌, is_nil, any, Ordering,
}
use kd.Types.{Health, truthy}
use kd.Namespaces.{
  NamespaceInfo, Decision, keep, pick, type_error, is_text, decide_namespace_pick, next_troubled,
  namespace_label,
}
use kd.Namespaces.Live.{
  Session, Event, opened, step, namespace_list, merged_namespaces, switch_ctx, accept_push, fail,
  resubscribe, record_summary,
}

pub data ConnState : Type 0 where
  connecting live offline : ConnState

abbrev pub is_connecting : ConnState → Bool
is_connecting connecting = true
is_connecting live = false
is_connecting offline = false

pub record ContextsInfo : Type 0 where
  pub enabled : Bool
  pub default : Text
  pub names : List Text

-- The resource of the contexts list: loading, loaded, or failed, with the status of an `ApiError`.
pub data ContextsRes : Type 0 where
  pending : ContextsRes
  ready : ContextsInfo → ContextsRes
  failed : Option ℕ → ContextsRes

pub record Cluster : Type 0 where
  pub session : Session
  pub contexts : ContextsRes
  pub namespace : Option Text
  pub conn_state : ConnState
  pub ns_flash : ℕ
  pub ns_notice : Option Text
  pub ns_resolved_ctx : Option Text
  -- How often the contexts list was asked for again.
  pub refetches : ℕ

unfoldable pub contexts_info : ContextsRes → Option ContextsInfo
contexts_info pending = none
contexts_info (ready info) = some info
contexts_info (failed status) = none

unfoldable pub auth_failed : ContextsRes → Bool
auth_failed pending = false
auth_failed (ready info) = false
auth_failed (failed none) = false
auth_failed (failed (some status)) = status == 401 || status == 403

abbrev pub has_failed : ContextsRes → Bool
has_failed pending = false
has_failed (ready info) = false
has_failed (failed status) = true

abbrev pub is_known : ContextsInfo → Option Text → Bool
is_known info ctx = any (λ name. is_text ctx name) info.names

-- The context after the effect that resolves it.
unfoldable pub resolve_ctx : ContextsRes → Option Text → Option Text
resolve_ctx res ctx = elim (contexts_info res) [
  | none ↦ ctx
  | some info ↦ if is_known info ctx then ctx else some info.default
]

abbrev pub same_ctx : Option Text → Option Text → Bool
same_ctx none none = true
same_ctx none (some d) = false
same_ctx (some c) none = false
same_ctx (some c) (some d) = c == d

-- `setCtx`: the same value again runs no effect.
unfoldable pub set_ctx : Option Text → Cluster → Cluster
set_ctx ctx s =
    if same_ctx s.session.ctx ctx then s else record s { session = switch_ctx ctx s.session }

-- The effect runs when the list or the context has changed.
unfoldable pub resolve : Cluster → Cluster
resolve s = set_ctx (resolve_ctx s.contexts s.session.ctx) s

unfoldable pub no_namespaces : Cluster → Bool
no_namespaces s =
    s.session.ns_received && not s.session.ns_errored && is_nil (namespace_list s.session)

unfoldable pub namespaces_loading : Cluster → Bool
namespaces_loading s = not s.session.ns_received && not s.session.ns_errored

-- A failure of the namespaces stream takes a client that is still connecting offline.
unfoldable pub on_stream_error : Cluster → Cluster
on_stream_error s =
    let failing = record s { session = fail s.session } in
    if s.session.ns_errored || not (is_connecting s.conn_state)
    then failing
    else record s { session = fail s.session; refetches = s.refetches + 1; conn_state = offline }

-- A failure of the contexts list that is no answer about the identity reads as offline.
unfoldable pub on_contexts : ContextsRes → Cluster → Cluster
on_contexts res s = resolve (record s {
  contexts = res;
  conn_state = if has_failed res && not (auth_failed res) then offline else s.conn_state;
})

abbrev pub notice_of : Text → Text
notice_of wanted =
    text "Couldn't open namespace "
    ++ (b'"' ∷ namespace_label wanted)
    ++ (b'"' ∷ b' ' ∷ 0x2014 ∷ text " no access, or it no longer exists.")

-- `if (pick.notify && wanted) noteNsFallback(wanted)`
abbrev pub note_ns_fallback : Bool → Option Text → Option Text → Option Text
note_ns_fallback notify wanted notice = elim (truthy wanted) [
  | none ↦ notice
  | some name ↦ if notify then some (notice_of name) else notice
]

pub data ClusterEvent : Type 0 where
  contexts : ContextsRes → ClusterEvent
  choose_ctx : Text → ClusterEvent
  choose_namespace : Text → ClusterEvent
  push : (for_ctx : Text) → List NamespaceInfo → ClusterEvent
  summary : (event_ctx ns : Text) → Health → Option ℕ → ClusterEvent
  stream_error reconnect jump notice_over : ClusterEvent
  connection : ConnState → ClusterEvent

-- The collation `localeCompare` of the host.
module _ (locale_compare : Text → Text → Ordering) where
  -- The effect that picks a namespace; it throws where `decideNamespacePick` does.
  unfoldable pub pick_namespace : Cluster → Option Cluster
  pick_namespace s =
      let list = namespace_list s.session in
      if is_nil list
      then some s
      else (elim (decide_namespace_pick locale_compare list s.namespace s.session.ctx
          s.ns_resolved_ctx) [
            | keep ↦ some (record s { ns_resolved_ctx = s.session.ctx })
            | pick p ↦ some (record s {
              ns_notice = note_ns_fallback p.notify s.namespace s.ns_notice;
              namespace = some p.name;
              ns_flash = s.ns_flash + 1;
              ns_resolved_ctx = s.session.ctx;
            })
            | type_error ↦ none
          ])

  unfoldable pub jump_to_trouble : Cluster → Cluster × Bool
  jump_to_trouble s =
      (elim (next_troubled locale_compare (merged_namespaces s.session) s.namespace) [
        | none ↦ (s, false)
        | some n ↦ (record s { namespace = some n.name; ns_flash = s.ns_flash + 1 }, true)
      ])

  -- What an event does itself.
  unfoldable pub handle : ClusterEvent → Cluster → Cluster
  handle (contexts res) s = on_contexts res s
  handle (choose_ctx ctx) s = resolve (set_ctx (some ctx) s)
  handle (choose_namespace ns) s = record s { namespace = some ns }
  handle (push for_ctx list) s = record s { session = accept_push for_ctx list s.session }
  handle (summary event_ctx ns health non_ready) s = record s {
    session = record_summary event_ctx ns health non_ready s.session;
  }
  handle stream_error s = on_stream_error s
  handle reconnect s = record s { session = resubscribe s.session }
  handle jump s = (jump_to_trouble s).0
  handle notice_over s = record s { ns_notice = none }
  handle (connection state) s = record s { conn_state = state }

  -- And then the effect; where nothing that it reads has changed, a run of it changes nothing.
  unfoldable pub react : ClusterEvent → Cluster → Option Cluster
  react e s = pick_namespace (handle e s)

  unfoldable pub react_all : List ClusterEvent → Cluster → Option Cluster
  react_all [] s = some s
  react_all (e ∷ es) s = elim (react e s) [ none ↦ none | some t ↦ react_all es t ]

abbrev pub booted : Option Text → Option Text → Cluster
booted ctx namespace = record {
  session = opened ctx;
  contexts = pending;
  namespace = namespace;
  conn_state = connecting;
  ns_flash = 0;
  ns_notice = none;
  ns_resolved_ctx = none;
  refetches = 0;
}
