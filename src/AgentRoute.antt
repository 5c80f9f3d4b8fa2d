-- ===== src/AgentRoute.antt =====
-- src/modules/agent-to-agent/agent-route.ts: a message of one agent is routed into a session of
-- another.
pub mod ReturnPath
use clawie.Prelude.{
  ℕ, String, Bool, true, false, not, ◌&&◌, ◌||◌, Option, none, some, List, if◌then◌else◌, str_eq,
  is_some,
}
use clawie.Json.{Content}
use clawie.SessionDb.{
  InboundDb, MessageOut, NewMessage, get_inbound_source_session_id,
  get_most_recent_peer_source_session_id,
}
use clawie.Central.{
  CentralDb, Session, agent, agent_shared, is_active, get_agent_group, get_session, has_destination,
}
use clawie.SessionManager.{Host, resolve_session, write_session_message}

-- What is outside of the file: the clock, the fresh ids, the copying of attached files with what
-- it makes of the content, and the staging of attachments.
pub record Courier : Type 0 where
  pub now : ℕ
  pub message_id : String
  pub session_id : String
  pub forward : MessageOut → Content
  pub stage : String → Content → Content

-- a text as a condition
abbrev pub non_empty : Option String → Option String
non_empty none = none
non_empty (some s) = if str_eq s "" then none else some s

abbrev pub or_next : Option String → Option String → Option String
or_next none next = next
or_next (some s) next = some s

-- the session that the message answers, or the last one that wrote from the target
unfoldable pub origin_session_id : Option String → String → InboundDb → Option String
origin_session_id in_reply_to target source_db =
    let direct : Option String = elim (non_empty in_reply_to) [
      | none ↦ none
      | some id ↦ non_empty (get_inbound_source_session_id id source_db)
    ] in
    or_next direct (non_empty (get_most_recent_peer_source_session_id target source_db))

abbrev pub is_session_of_target : String → Session → Bool
is_session_of_target target s = str_eq s.agent_group_id target && is_active s.status

abbrev pub if_live : String → Option Session → Option Session
if_live target none = none
if_live target (some candidate) =
    if is_session_of_target target candidate then some candidate else none

-- the session with the id, if it is an active one of the target
unfoldable pub live_candidate : Option String → String → CentralDb → Option Session
live_candidate none target db = none
live_candidate (some id) target db = if_live target (get_session id db)

-- `resolveTargetSession`
unfoldable pub resolve_target_session :
    Courier → MessageOut → Session → String → Host → Session × CentralDb
unfolding origin_session_id live_candidate
resolve_target_session w msg source target host =
    elim (live_candidate (origin_session_id msg.in_reply_to target (host.inbound source.id)) target
      host.central) [
        | some candidate ↦ (candidate, host.central)
        | none ↦
            let (session, central, created) =
              resolve_session w.session_id w.now target none none agent_shared host.central in
            (session, central)
      ]

abbrev pub agent_message : Courier → MessageOut → Session → NewMessage
agent_message w msg source = record {
  id = w.message_id;
  kind = "chat";
  timestamp = w.now;
  platform_id = some source.agent_group_id;
  channel_type = some "agent";
  thread_id = none;
  content = w.forward msg;
  process_after = none;
  recurrence = none;
  trigger = none;
  source_session_id = some source.id;
  on_wake = none;
}

-- the permission, and the target's existence
unfoldable pub may_route : Session → String → CentralDb → Bool
may_route source target db =
    (str_eq target source.agent_group_id || has_destination source.agent_group_id agent target db)
    && is_some (get_agent_group target db)

-- after the write, or its exception
abbrev pub finish : Host → String → Option Host → Host × Option Session × Bool
finish resolved session_id none = (resolved, none, false)
finish resolved session_id (some written) = (written, get_session session_id written.central, true)

-- `routeAgentMessage`: false is an exception, and `Option Session` the session whose container is
-- woken
unfoldable pub route_agent_message :
    Courier → MessageOut → Session → Host → Host × Option Session × Bool
unfolding may_route
route_agent_message w msg source host = elim (non_empty msg.platform_id) [
  | none ↦ (host, none, false)
  | some target ↦
      let (session, central) = resolve_target_session w msg source target host in
      let resolved : Host = record host { central = central } in
      if not (may_route source target host.central)
      then (host, none, false)
      else finish resolved session.id
          (write_session_message w.stage w.now session.id (agent_message w msg source) resolved)
]
