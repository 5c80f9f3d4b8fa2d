-- ===== src/ContainerRunner.antt =====
-- src/container-runner.ts: waking, watching and killing the container of a session. What is
-- asynchronous in the source is a step of its own: a wake prepares the container, spawns it or
-- gives up, and then its promise leaves the map.

pub mod Tracked
pub mod Notice
pub mod Alone
use clawie.Prelude.{
  ℕ, ◌+◌, String, Bool, true, false, not, ◌&&◌, ◌||◌, Option, none, some, List, [], ◌∷◌, or_else,
  is_some, str_eq, if◌then◌else◌, ltb, ◌==◌, update_where,
}
use clawie.Json.{json, object, field, text, end}
use clawie.SessionDb.{MessageOut, count_due_messages}
use clawie.Central.{
  CentralDb, Session, MessagingGroup, ContainerStatus, running, stopped, get_messaging_group,
  get_agent_group, set_container_status, touch_session,
}
use clawie.SessionManager.{Host, write_outbound_direct, set_at, chat_of}

-- where an in-flight wake stands: before the spawn, or done and still in the map
pub data WakePhase : Type 0 where
  preparing settling : WakePhase

-- The module's maps and sets. `live` are the sessions of the processes that are alive, and `spawning`
-- those of the calls of `spawnContainer` that have not come to the spawn, one entry for each.
pub record Runner : Type 0 where
  pub host : Host
  pub live : List String
  pub spawning : List String
  pub active_containers : String → Bool
  pub wake_promises : String → Option WakePhase
  pub intentional_kills : String → Bool
  pub last_failure_notice : String → Option ℕ

abbrev pub failure_notice_cooldown_ms : ℕ
failure_notice_cooldown_ms = 600000

pub data WakeResult : Type 0 where
  already_running joined started : WakeResult

abbrev pub remove_first : String → List String → List String
remove_first id [] = []
remove_first id (x ∷ xs) = let rest = x ∷ remove_first id xs in if str_eq x id then xs else rest

unfoldable pub join_or_start : Session → Option WakePhase → Runner → Runner × WakeResult
join_or_start session (some phase) r = (r, joined)
join_or_start session none r = (
  record r {
    spawning = session.id ∷ r.spawning;
    wake_promises = set_at r.wake_promises session.id (some preparing);
  },
  started,
)

unfoldable pub wake_container : Session → Runner → Runner × WakeResult
unfolding join_or_start
wake_container session r =
    if r.active_containers session.id
    then (r, already_running)
    else join_or_start session (r.wake_promises session.id) r

abbrev mark_running : String → ℕ → CentralDb → CentralDb
mark_running id now db = touch_session id now (set_container_status id running db)

abbrev pub mark_stopped : String → Host → Host
mark_stopped id host = record host { central = set_container_status id stopped host.central }

-- the part of `spawnContainer` from the spawn on
unfoldable pub spawn_process : ℕ → Session → Runner → Runner
unfolding set_container_status touch_session
spawn_process now session r = record r {
  host = record (r.host) { central = mark_running session.id now r.host.central };
  live = session.id ∷ r.live;
  spawning = remove_first session.id r.spawning;
  active_containers = set_at r.active_containers session.id true;
  wake_promises = set_at r.wake_promises session.id (some settling);
}

-- a spawn that throws before, or returns for want of the agent group
unfoldable pub give_up : Session → Runner → Runner
give_up session r = record r {
  spawning = remove_first session.id r.spawning;
  wake_promises = set_at r.wake_promises session.id (some settling);
}

-- the `finally` of a wake
unfoldable pub settle_wake : Session → Runner → Runner
settle_wake session r = record r { wake_promises = set_at r.wake_promises session.id none }

abbrev pub notice : String → Session → MessagingGroup → ℕ → MessageOut
notice id session mg now = record {
  id = id;
  seq = 0;
  in_reply_to = none;
  timestamp = now;
  deliver_after = none;
  kind = "chat";
  platform_id = some mg.platform_id;
  channel_type = some mg.channel_type;
  thread_id = session.thread_id;
  content = json (
      object (
        field "text"
          (text
            "I ran into a problem and had to restart — retrying your last message shortly. If this keeps happening, an admin can check the logs with `clawie sessions logs`.")
          end));
}

abbrev pub notified : Session → ℕ → Runner → Option Host → Runner
notified session now r none = r
notified session now r (some host) = record r {
  host = host;
  last_failure_notice = set_at r.last_failure_notice session.id (some now);
}

abbrev pub chat_to_notify : Session → CentralDb → Option MessagingGroup
chat_to_notify session db = elim (chat_of session.messaging_group_id) [
  | none ↦ none
  | some id ↦ get_messaging_group id db
]

-- an exception is caught and leaves everything as it was
unfoldable pub notify_chat : ℕ → String → Session → Runner → Option MessagingGroup → Runner
unfolding write_outbound_direct
notify_chat now id session r none = r
notify_chat now id session r (some mg) =
    notified session now r (write_outbound_direct session.id (notice id session mg now) r.host)

unfoldable pub notify_abnormal_exit : ℕ → String → Session → Runner → Runner
unfolding notify_chat get_messaging_group
notify_abnormal_exit now id session r =
    if count_due_messages now (r.host.inbound session.id) == 0
    then r
    else if ltb now (or_else (r.last_failure_notice session.id) 0 + failure_notice_cooldown_ms)
    then r
    else notify_chat now id session r (chat_to_notify session r.host.central)

-- what the events `close` and `error` have in common
abbrev pub forget : Session → Runner → Runner
forget session r = record r {
  host = mark_stopped session.id r.host;
  live = remove_first session.id r.live;
  active_containers = set_at r.active_containers session.id false;
  intentional_kills = set_at r.intentional_kills session.id false;
}

-- the event `close`; `clean` says that the exit code is 0
unfoldable pub container_closed : ℕ → String → Bool → Session → Runner → Runner
unfolding notify_abnormal_exit set_container_status
container_closed now id clean session r =
    if not (r.intentional_kills session.id) && not clean
    then notify_abnormal_exit now id session (forget session r)
    else forget session r

-- the event `error`, of a process that did not start
unfoldable pub spawn_failed : Session → Runner → Runner
unfolding set_container_status
spawn_failed session r = forget session r

unfoldable pub kill_container : String → Runner → Runner
kill_container id r =
    if r.active_containers id
    then record r { intentional_kills = set_at r.intentional_kills id true }
    else r
