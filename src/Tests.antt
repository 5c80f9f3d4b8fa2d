-- ===== src/Tests.antt =====
-- A small installation on which the theorems are applied: two agent groups, a group chat and a
-- direct chat, an owner, an admin and a member.
pub mod Delivery
pub mod Routing
pub mod AgentRouting
pub mod Permissions
pub mod Sessions
pub mod Wiring
pub mod Containers
pub mod Pairings
pub mod Commands
pub mod Breaker
pub mod Recurrence
pub mod Names
pub mod Mounts
pub mod Approvals
pub mod Outputs
use clawie.Prelude.{ℕ, String, Bool, true, false, Option, none, some, List, [], ◌∷◌}
use clawie.Json.{Content, json, plain, text, object, field, end}
use clawie.Inbound.{InboundEvent, chat}
use clawie.SessionDb.{
  InboundDb, OutboundDb, MessageIn, MessageOut, NewMessage, Delivered, ProcessingAck,
  ContainerState, Stamp, instant, MessageStatus, pending, ack_processing,
}
use clawie.Central.{
  AgentGroup, MessagingGroup, MessagingGroupAgent, Session, AgentDestination, User, UserRole,
  AgentGroupMember, CentralDb, strict, mention, all_senders, drop_ignored, shared, active, stopped,
  channel, owner, admin, agent,
}
use clawie.SessionManager.{Host}

abbrev pub helper : AgentGroup
helper = record { id = "ag-helper"; name = "Helper"; folder = "helper" }

abbrev pub writer : AgentGroup
writer = record { id = "ag-writer"; name = "Writer"; folder = "writer" }

abbrev pub family_chat : MessagingGroup
family_chat = record {
  id = "mg-family";
  channel_type = "telegram";
  platform_id = "-100";
  name = some "Family";
  is_group = true;
  unknown_sender_policy = strict;
  denied_at = none;
  channel_account = none;
}

abbrev pub wiring : String → String → MessagingGroupAgent
wiring id agent_group_id = record {
  id = id;
  messaging_group_id = "mg-family";
  agent_group_id = agent_group_id;
  engage_mode = mention;
  engage_pattern = none;
  sender_scope = all_senders;
  ignored_message_policy = drop_ignored;
  session_mode = shared;
  priority = 0;
  created_at = 1;
}

abbrev pub session_of : String → String → Session
session_of id agent_group_id = record {
  id = id;
  agent_group_id = agent_group_id;
  messaging_group_id = some "mg-family";
  thread_id = none;
  status = active;
  container_status = stopped;
  last_active = none;
  created_at = 1;
}

abbrev pub user : String → User
user id = record { id = id; kind = "telegram"; display_name = none; created_at = 1 }

abbrev pub central : List MessagingGroupAgent → CentralDb
central wirings = record {
  agent_groups = helper ∷ writer ∷ [];
  messaging_groups = family_chat ∷ [];
  messaging_group_agents = wirings;
  channel_accounts = [];
  sessions = session_of "s-helper" "ag-helper" ∷ session_of "s-writer" "ag-writer" ∷ [];
  agent_destinations = some (
      record {
        agent_group_id = "ag-helper";
        local_name = "family";
        target_type = channel;
        target_id = "mg-family";
        created_at = 1;
      }
      ∷ record {
        agent_group_id = "ag-helper";
        local_name = "writer";
        target_type = agent;
        target_id = "ag-writer";
        created_at = 2;
      }
      ∷ []);
  users =
      user "telegram:owner"
      ∷ user "telegram:admin"
      ∷ user "telegram:member"
      ∷ user "telegram:stranger"
      ∷ [];
  user_roles = some (
      record { user_id = "telegram:owner"; role = owner; agent_group_id = none; granted_at = 1 }
      ∷ record {
        user_id = "telegram:admin";
        role = admin;
        agent_group_id = some "ag-helper";
        granted_at = 2;
      }
      ∷ []);
  agent_group_members =
      record {
        user_id = "telegram:member";
        agent_group_id = "ag-helper";
        added_by = none;
        added_at = 3;
      }
      ∷ [];
  unregistered_senders = [];
  pending_sender_approvals = [];
}

abbrev pub no_inbound : InboundDb
no_inbound = record { messages_in = []; delivered = [] }

abbrev pub no_outbound : OutboundDb
no_outbound = record { messages_out = []; processing_ack = []; container_state = none }

abbrev pub says : String → Content
says words = json (object (field "text" (text words) end))

abbrev pub outgoing : String → MessageOut
outgoing id = record {
  id = id;
  seq = 1;
  in_reply_to = none;
  timestamp = 10;
  deliver_after = none;
  kind = "chat";
  platform_id = some "-100";
  channel_type = some "telegram";
  thread_id = none;
  content = says "hello";
}

abbrev pub incoming : String → InboundEvent
incoming words = record {
  channel_type = "telegram";
  channel_account = none;
  platform_id = "-100";
  thread_id = none;
  message_id = "m1";
  kind = chat;
  content = says words;
  timestamp = 20;
  is_mention = true;
  is_group = true;
  reply_to = none;
}

abbrev pub host : List MessagingGroupAgent → Host
host wirings = record {
  central = central wirings;
  inbound = λ id. no_inbound;
  outbound = λ id. no_outbound;
}
