-- ===== src/Central/Sessions.antt =====
-- src/db/agent-groups.ts and src/db/sessions.ts.
use clawie.Prelude.{
  ℕ, String, Bool, true, false, not, ◌&&◌, Option, none, some, List, [], ◌∷◌, ◌++◌, if◌then◌else◌,
  leb, str_eq, sql_eq, is_some, select, find, update_where, order_by,
}
use clawie.Central.Rows.{
  AgentGroup, ContainerStatus, Session, CentralDb, is_active, running, idle, stopped,
}

unfoldable pub get_agent_group : String → CentralDb → Option AgentGroup
get_agent_group id db = find (λ (g : AgentGroup). str_eq g.id id) db.agent_groups

-- Sessions

unfoldable pub create_session : Session → CentralDb → CentralDb
create_session session db = record db { sessions = db.sessions ++ session ∷ [] }

unfoldable pub get_session : String → CentralDb → Option Session
get_session id db = find (λ (s : Session). str_eq s.id id) db.sessions

-- `threadId` as a WHERE clause: the empty text is looked up as NULL
abbrev pub on_thread : Option String → Session → Bool
on_thread none s = not (is_some s.thread_id)
on_thread (some t) s = if str_eq t "" then not (is_some s.thread_id) else sql_eq s.thread_id t

abbrev pub is_session_for : String → String → Option String → Session → Bool
is_session_for agent_group_id messaging_group_id thread_id s =
    str_eq s.agent_group_id agent_group_id
    && sql_eq s.messaging_group_id messaging_group_id
    && on_thread thread_id s
    && is_active s.status

unfoldable pub find_session_for_agent : String → String → Option String → CentralDb → Option Session
find_session_for_agent agent_group_id messaging_group_id thread_id db =
    find (is_session_for agent_group_id messaging_group_id thread_id) db.sessions

abbrev pub is_session_of : String → Session → Bool
is_session_of agent_group_id s = str_eq s.agent_group_id agent_group_id && is_active s.status

-- ORDER BY created_at DESC LIMIT 1
unfoldable pub find_session_by_agent_group : String → CentralDb → Option Session
find_session_by_agent_group agent_group_id db =
    find (λ (s : Session). true)
      (order_by (λ (a b : Session). leb b.created_at a.created_at)
        (select (is_session_of agent_group_id) db.sessions))

unfoldable pub get_active_sessions : CentralDb → List Session
get_active_sessions db = select (λ (s : Session). is_active s.status) db.sessions

abbrev is_up : ContainerStatus → Bool
is_up running = true
is_up idle = true
is_up stopped = false

unfoldable pub get_running_sessions : CentralDb → List Session
get_running_sessions db = select (λ (s : Session). is_up s.container_status) db.sessions

-- updateSession(id, { last_active })
unfoldable pub touch_session : String → ℕ → CentralDb → CentralDb
touch_session id now db = record db {
  sessions =
      update_where (λ (s : Session). str_eq s.id id) (λ s. record s { last_active = some now })
        db.sessions;
}

-- updateSession(id, { container_status })
unfoldable pub set_container_status : String → ContainerStatus → CentralDb → CentralDb
set_container_status id status db = record db {
  sessions =
      update_where (λ (s : Session). str_eq s.id id) (λ s. record s { container_status = status })
        db.sessions;
}
