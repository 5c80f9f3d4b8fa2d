-- ===== src/SessionManager.antt =====
-- src/session-manager.ts: the session of a chat is found or created, and messages are written into
-- the databases of a session.
pub mod Resolve
use clawie.Prelude.{
  ℕ, ◌+◌, String, Bool, true, false, not, Option, none, some, List, [], ◌∷◌, ◌++◌, if◌then◌else◌,
  str_eq, exists, max_of,
}
use clawie.Json.{Content}
use clawie.SessionDb.{InboundDb, OutboundDb, MessageOut, NewMessage, insert_message}
use clawie.Central.{
  CentralDb, Session, SessionMode, shared, per_thread, agent_shared, active, stopped,
  create_session, find_session_for_agent, find_session_by_agent_group, touch_session,
}

-- The central database and the two databases of every session, by the session's id.
pub record Host : Type 0 where
  pub central : CentralDb
  pub inbound : String → InboundDb
  pub outbound : String → OutboundDb

-- `messagingGroupId` as a condition: the empty text is false
abbrev pub chat_of : Option String → Option String
chat_of none = none
chat_of (some id) = if str_eq id "" then none else some id

abbrev pub find_in_chat : String → Option String → Option String → CentralDb → Option Session
find_in_chat agent_group_id none thread_id db = none
find_in_chat agent_group_id (some id) thread_id db =
    find_session_for_agent agent_group_id id thread_id db

unfoldable pub find_session :
    String → Option String → Option String → SessionMode → CentralDb → Option Session
find_session agent_group_id messaging_group_id thread_id agent_shared db =
    find_session_by_agent_group agent_group_id db
find_session agent_group_id messaging_group_id thread_id shared db =
    find_in_chat agent_group_id (chat_of messaging_group_id) none db
find_session agent_group_id messaging_group_id thread_id per_thread db =
    find_in_chat agent_group_id (chat_of messaging_group_id) thread_id db

abbrev pub thread_of : SessionMode → Option String → Option String
thread_of per_thread thread_id = thread_id
thread_of _ thread_id = none

abbrev pub new_session : String → ℕ → String → Option String → Option String → SessionMode → Session
new_session id now agent_group_id messaging_group_id thread_id mode = record {
  id = id;
  agent_group_id = agent_group_id;
  messaging_group_id = messaging_group_id;
  thread_id = thread_of mode thread_id;
  status = active;
  container_status = stopped;
  last_active = none;
  created_at = now;
}

-- `resolveSession`: the session, the tables, and whether it was created; `id` is a fresh one
unfoldable pub resolve_session :
    String
    → ℕ
    → String
    → Option String
    → Option String
    → SessionMode
    → CentralDb
    → Session × CentralDb × Bool
resolve_session id now agent_group_id messaging_group_id thread_id mode db =
    elim (find_session agent_group_id messaging_group_id thread_id mode db) [
      | some session ↦ (session, db, false)
      | none ↦
          let session = new_session id now agent_group_id messaging_group_id thread_id mode in
          (session, create_session session db, true)
    ]

abbrev pub set_at {ℓ} : {A : Type ℓ} → (String → A) → String → A → String → A
set_at f id x key = if str_eq id key then x else f key

-- the tables after the insert; `none` is its exception
abbrev pub with_message : ℕ → String → Host → Option InboundDb → Option Host
with_message now session_id host none = none
with_message now session_id host (some db) = some (record host {
  inbound = set_at host.inbound session_id db;
  central = touch_session session_id now host.central;
})

-- `writeSessionMessage`; `stage` stands for `extractAttachmentFiles`
unfoldable pub write_session_message :
    (String → Content → Content) → ℕ → String → NewMessage → Host → Option Host
write_session_message stage now session_id message host =
    let staged = record message { content = stage message.id message.content } in
    with_message now session_id host (insert_message (host.inbound session_id) staged)

-- An open outbound database, and whether it was opened for writing.
pub record Connection : Type 0 where
  pub db : OutboundDb
  pub writable : Bool

-- `openOutboundDb`, which passes `readonly: true`
abbrev pub open_outbound_db : OutboundDb → Connection
open_outbound_db db = record { db = db; writable = false }

abbrev pub open_outbound_db_rw : OutboundDb → Connection
open_outbound_db_rw db = record { db = db; writable = true }

-- INSERT OR IGNORE INTO messages_out with the sequence number MAX(seq) + 2; `none` is the
-- exception on a connection that is read-only
unfoldable pub insert_direct : MessageOut → Connection → Option OutboundDb
insert_direct message connection =
    let rows = connection.db.messages_out in
    if not connection.writable
    then none
    else if exists (λ (m : MessageOut). str_eq m.id message.id) rows
    then some connection.db
    else some (record (connection.db) {
      messages_out =
          rows ++ record message { seq = max_of (λ (m : MessageOut). m.seq) rows + 2 } ∷ [];
    })

-- `writeOutboundDirect`
unfoldable pub write_outbound_direct : String → MessageOut → Host → Option Host
unfolding insert_direct
write_outbound_direct session_id message host =
    elim (insert_direct message (open_outbound_db (host.outbound session_id))) [
      | none ↦ none
      | some db ↦ some (record host { outbound = set_at host.outbound session_id db })
    ]
