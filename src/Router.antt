-- ===== src/Router.antt =====
-- src/router.ts: a message from a channel adapter is routed to the sessions of the agents that are
-- wired to its chat.
pub mod Loop
pub mod Inbound
pub mod Access
pub mod Refusals
pub mod Drops
pub mod Denials
use clawie.Prelude.{
  ℕ, ◌+◌, String, Bool, true, false, not, ◌&&◌, ◌||◌, Option, none, some, List, [], ◌∷◌, ◌++◌,
  if◌then◌else◌, ◌==◌, str_eq, is_some, or_else,
}
use Prim.Native.String.{◌++◌ as str_append}
use clawie.Json.{Content, json, plain, Value, null, text, object, field, end, get, as_string}
use clawie.Inbound.{InboundEvent, InboundKind, DeliveryAddress, chat, chat_sdk}
use clawie.SessionDb.{MessageOut, NewMessage}
use clawie.Central.{
  CentralDb, MessagingGroup, MessagingGroupAgent, AgentGroup, ChannelAccount, AccountScope, Session,
  SessionMode, EngageMode, pattern_mode, mention, mention_sticky, request_approval, all_senders,
  drop_ignored, accumulate, IgnoredMessagePolicy, shared, per_thread, agent_shared,
  UnregisteredSender, get_agent_group, get_channel_account, get_session,
  get_messaging_group_with_agent_count, create_messaging_group, create_messaging_group_agent,
  get_messaging_group_agents, find_session_for_agent, record_dropped_message,
}
use clawie.CommandGate.{GateResult, pass, filter, deny, gate_command}
use clawie.SessionManager.{Host, resolve_session, write_session_message, write_outbound_direct}
use clawie.Permissions.Gates.{sender_name_of}

-- What is outside of the file: the clock and the fresh ids, the adapter's policy, the regular
-- expressions (`none` is a syntax error), and the staging of attachments.
pub record Gateway : Type 0 where
  pub now : ℕ
  pub fresh_id : String
  pub session_id : String → String
  pub supports_threads : Option Bool
  pub can_subscribe : Bool
  pub intercepts : InboundEvent → Bool
  pub matches : String → String → Option Bool
  pub stage : String → Content → Content

-- The hooks that modules register. A resolver that gives `none` throws.
pub record Hooks : Type 0 where
  pub sender_resolver : Option (InboundEvent → CentralDb → Option (CentralDb × Option String))
  pub access_gate :
      Option (InboundEvent → Option String → MessagingGroup → String → CentralDb → CentralDb × Bool)
  pub sender_scope_gate : Option (Option String → MessagingGroupAgent → CentralDb → Bool)

-- `wakes` lists the sessions whose container was woken, `subscriptions` the threads, and
-- `channel_requests` the chats whose registration was asked for.
pub record RouterState : Type 0 where
  pub host : Host
  pub wakes : List String
  pub subscriptions : List (String × String)
  pub channel_requests : List String

-- new RegExp(pat).test(text), where a bad pattern engages
unfoldable pub evaluate_engage :
    (String → String → Option Bool)
    → MessagingGroupAgent
    → String
    → Bool
    → MessagingGroup
    → Option String
    → CentralDb
    → Bool
evaluate_engage matches agent message_text is_mention mg thread_id db = elim agent.engage_mode [
  | pattern_mode ↦
      let pat = or_else agent.engage_pattern "." in
      if str_eq pat "." then true else or_else (matches pat message_text) true
  | mention ↦ is_mention
  | mention_sticky ↦
      if is_mention
      then true
      else if not mg.is_group
      then false
      else is_some (find_session_for_agent agent.agent_group_id mg.id thread_id db)
]

abbrev is_shared : SessionMode → Bool
is_shared agent_shared = true
is_shared _ = false

unfoldable pub effective_session_mode : Bool → SessionMode → MessagingGroup → SessionMode
effective_session_mode supports_threads mode mg =
    if supports_threads && not (is_shared mode) && mg.is_group then per_thread else mode

abbrev pub delivery_address : InboundEvent → DeliveryAddress
delivery_address event = or_else event.reply_to (record {
  channel_type = event.channel_type;
  platform_id = event.platform_id;
  thread_id = event.thread_id;
})

-- `messageIdForAgent`; `${id}:${agentGroupId}`
unfoldable pub message_id_for_agent : String → String → String → String
message_id_for_agent fresh base_id agent_group_id =
    str_append (if str_eq base_id "" then fresh else base_id) (str_append ":" agent_group_id)

abbrev pub kind_text : InboundKind → String
kind_text chat = "chat"
kind_text chat_sdk = "chat-sdk"

-- JSON.stringify({ text: `Permission denied: … requires admin access.` })
abbrev pub denial : Gateway → DeliveryAddress → String → MessageOut
denial w address command = record {
  id = str_append "deny-" w.fresh_id;
  seq = 0;
  in_reply_to = none;
  timestamp = w.now;
  deliver_after = none;
  kind = "chat";
  platform_id = some address.platform_id;
  channel_type = some address.channel_type;
  thread_id = address.thread_id;
  content = json (
      object (
        field "text"
          (text (str_append "Permission denied: " (str_append command " requires admin access.")))
          end));
}

abbrev pub inbound_message : Gateway → InboundEvent → String → Bool → NewMessage
inbound_message w event agent_group_id wake = record {
  id = message_id_for_agent w.fresh_id event.message_id agent_group_id;
  kind = kind_text event.kind;
  timestamp = event.timestamp;
  platform_id = some (delivery_address event).platform_id;
  channel_type = some (delivery_address event).channel_type;
  thread_id = (delivery_address event).thread_id;
  content = event.content;
  process_after = none;
  recurrence = none;
  trigger = some wake;
  source_session_id = none;
  on_wake = none;
}

-- A step that may throw keeps what it wrote before: false says that it threw.
abbrev pub Result : Type 0
Result = RouterState × Bool

-- the write and the wake, after the command gate
unfoldable pub write_and_wake :
    Gateway → InboundEvent → MessagingGroupAgent → Session → Bool → RouterState → Result
write_and_wake w event agent session wake s =
    elim (write_session_message w.stage w.now session.id
      (inbound_message w event agent.agent_group_id wake) s.host) [
        | none ↦ (s, false)
        | some host ↦
            if wake && is_some (get_session session.id host.central)
            then (record s { host = host; wakes = session.id ∷ s.wakes }, true)
            else (record s { host = host }, true)
      ]

-- both kinds of an inbound message go through the command gate
unfoldable pub deliver_to_agent :
    Gateway
    → MessagingGroupAgent
    → MessagingGroup
    → InboundEvent
    → Option String
    → Bool
    → Bool
    → RouterState
    → Result
unfolding write_and_wake
deliver_to_agent w agent mg event user_id supports_threads wake s =
    let mode = effective_session_mode supports_threads agent.session_mode mg in
    let (session, central, created) =
      resolve_session (w.session_id agent.agent_group_id) w.now agent.agent_group_id (some mg.id)
        event.thread_id mode s.host.central in
    let s' : RouterState = record s { host = record (s.host) { central = central } } in
    elim (gate_command event.content user_id agent.agent_group_id central) [
      | filter ↦ (s', true)
      | deny command ↦
          elim (write_outbound_direct session.id (denial w (delivery_address event) command)
            s'.host) [ none ↦ (s', false) | some host ↦ (record s' { host = host }, true) ]
      | pass ↦ write_and_wake w event agent session wake s'
    ]
