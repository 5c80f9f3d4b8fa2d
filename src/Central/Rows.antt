-- ===== src/Central/Rows.antt =====
-- The rows of the central database (src/types.ts, src/db/schema.ts and the migrations). A
-- timestamp that only orders rows is a number.
use clawie.Prelude.{ℕ, String, Bool, true, false, Option, List}
use clawie.Inbound.{InboundEvent}

pub record AgentGroup : Type 0 where
  pub id : String
  pub name : String
  pub folder : String

pub data UnknownSenderPolicy : Type 0 where
  strict request_approval public : UnknownSenderPolicy

pub record MessagingGroup : Type 0 where
  pub id : String
  pub channel_type : String
  pub platform_id : String
  pub name : Option String
  pub is_group : Bool
  pub unknown_sender_policy : UnknownSenderPolicy
  pub denied_at : Option ℕ
  pub channel_account : Option String

pub data EngageMode : Type 0 where
  pattern_mode mention mention_sticky : EngageMode

pub data SenderScope : Type 0 where
  all_senders known_senders : SenderScope

pub data IgnoredMessagePolicy : Type 0 where
  drop_ignored accumulate : IgnoredMessagePolicy

pub data SessionMode : Type 0 where
  shared per_thread agent_shared : SessionMode

pub record MessagingGroupAgent : Type 0 where
  pub id : String
  pub messaging_group_id : String
  pub agent_group_id : String
  pub engage_mode : EngageMode
  pub engage_pattern : Option String
  pub sender_scope : SenderScope
  pub ignored_message_policy : IgnoredMessagePolicy
  pub session_mode : SessionMode
  pub priority : ℕ
  pub created_at : ℕ

pub record ChannelAccount : Type 0 where
  pub id : String
  pub channel_type : String
  pub account_id : String
  pub default_agent_group_id : Option String
  pub is_default : Bool
  pub engage_mode : EngageMode
  pub engage_pattern : Option String

pub data SessionStatus : Type 0 where
  active closed : SessionStatus

abbrev pub is_active : SessionStatus → Bool
is_active active = true
is_active closed = false

pub data ContainerStatus : Type 0 where
  running idle stopped : ContainerStatus

pub record Session : Type 0 where
  pub id : String
  pub agent_group_id : String
  pub messaging_group_id : Option String
  pub thread_id : Option String
  pub status : SessionStatus
  pub container_status : ContainerStatus
  pub last_active : Option ℕ
  pub created_at : ℕ

pub data TargetType : Type 0 where
  channel agent : TargetType

abbrev pub is_target : TargetType → TargetType → Bool
is_target channel channel = true
is_target agent agent = true
is_target _ _ = false

pub record AgentDestination : Type 0 where
  pub agent_group_id : String
  pub local_name : String
  pub target_type : TargetType
  pub target_id : String
  pub created_at : ℕ

pub record User : Type 0 where
  pub id : String
  pub kind : String
  pub display_name : Option String
  pub created_at : ℕ

pub data UserRoleKind : Type 0 where
  owner admin : UserRoleKind

abbrev pub is_role : UserRoleKind → UserRoleKind → Bool
is_role owner owner = true
is_role admin admin = true
is_role _ _ = false

pub record UserRole : Type 0 where
  pub user_id : String
  pub role : UserRoleKind
  pub agent_group_id : Option String
  pub granted_at : ℕ

pub record AgentGroupMember : Type 0 where
  pub user_id : String
  pub agent_group_id : String
  pub added_by : Option String
  pub added_at : ℕ

-- A row of `unregistered_senders`, without its two time columns.
pub record UnregisteredSender : Type 0 where
  pub channel_type : String
  pub platform_id : String
  pub user_id : Option String
  pub sender_name : Option String
  pub reason : String
  pub messaging_group_id : Option String
  pub agent_group_id : Option String
  pub message_count : ℕ

-- A row of `pending_sender_approvals`, without the texts of its card.
pub record PendingSenderApproval : Type 0 where
  pub id : String
  pub messaging_group_id : String
  pub agent_group_id : String
  pub sender_identity : String
  pub original_message : InboundEvent
  pub approver_user_id : String

-- The tables; one of a module that is not installed does not exist.
pub record CentralDb : Type 0 where
  pub agent_groups : List AgentGroup
  pub messaging_groups : List MessagingGroup
  pub messaging_group_agents : List MessagingGroupAgent
  pub channel_accounts : List ChannelAccount
  pub sessions : List Session
  pub agent_destinations : Option (List AgentDestination)
  pub users : List User
  pub user_roles : Option (List UserRole)
  pub agent_group_members : List AgentGroupMember
  pub unregistered_senders : List UnregisteredSender
  pub pending_sender_approvals : List PendingSenderApproval
