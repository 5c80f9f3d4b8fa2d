-- ===== src/Permissions/Gates.antt =====
-- src/modules/permissions/index.ts: the two gates that the router asks, and what becomes of an unknown
-- sender.
pub mod Senders
pub mod Cards
unfoldable pub use Senders.*
unfoldable pub use Cards.*
use Prim.Native.Char.{code}
use Prim.Native.String.{[] as empty, ◌∷◌ as str_cons, ◌++◌ as str_append}
use clawie.Prelude.{
  ℕ, String, Bool, true, false, not, ◌&&◌, ◌||◌, Option, none, some, List, [], ◌∷◌, ◌++◌,
  if◌then◌else◌, ◌==◌, str_eq, is_some, find, exists, delete_where,
}
use clawie.Json.{Content, json, plain, Value, null, get, as_string}
use clawie.Inbound.{InboundEvent}
use clawie.Central.{
  CentralDb, MessagingGroup, MessagingGroupAgent, UnknownSenderPolicy, strict, request_approval,
  public, all_senders, known_senders, PendingSenderApproval, UnregisteredSender,
  record_dropped_message,
}
use clawie.Permissions.{
  get_user, upsert_user, can_access_agent_group, is_allowed, has_admin_privilege, add_member,
  pick_approver,
}

-- `parsed.sender ?? null`
abbrev pub sender_name_of : Content → Option String
sender_name_of (plain raw) = none
sender_name_of (json content) = as_string (get "sender" content)

-- `unknown_sender_${mg.unknown_sender_policy}`
abbrev pub refusal_text : UnknownSenderPolicy → String
refusal_text strict = "unknown_sender_strict"
refusal_text request_approval = "unknown_sender_request_approval"
refusal_text public = "unknown_sender_public"

unfoldable pub drop_record :
    MessagingGroup → Option String → String → InboundEvent → UnregisteredSender
drop_record mg user_id agent_group_id event = record {
  channel_type = event.channel_type;
  platform_id = event.platform_id;
  user_id = user_id;
  sender_name = sender_name_of event.content;
  reason = refusal_text mg.unknown_sender_policy;
  messaging_group_id = some mg.id;
  agent_group_id = some agent_group_id;
  message_count = 1;
}

-- what is done under each policy
abbrev pub by_policy {ℓ} : {A : Type ℓ} → UnknownSenderPolicy → A → A → A → A
by_policy strict if_strict if_request if_public = if_strict
by_policy request_approval if_strict if_request if_public = if_request
by_policy public if_strict if_request if_public = if_public

-- `if (userId)` before the request
abbrev pub request_if_known :
    ApprovalDesk → MessagingGroup → Option String → String → InboundEvent → CentralDb → CentralDb
request_if_known desk mg none agent_group_id event db = db
request_if_known desk mg (some id) agent_group_id event db =
    if str_eq id "" then db else request_sender_approval desk mg.id agent_group_id id event db

unfoldable pub handle_unknown_sender :
    ApprovalDesk → MessagingGroup → Option String → String → InboundEvent → CentralDb → CentralDb
unfolding drop_record request_sender_approval
handle_unknown_sender desk mg user_id agent_group_id event db =
    let recorded = record_dropped_message (drop_record mg user_id agent_group_id event) db in
    by_policy mg.unknown_sender_policy recorded
      (request_if_known desk mg user_id agent_group_id event recorded) db

-- the check of a sender in a chat that is not public
unfoldable pub check_access :
    ApprovalDesk
    → InboundEvent
    → Option String
    → MessagingGroup
    → String
    → CentralDb
    → CentralDb × Bool
check_access desk event none mg agent_group_id db =
    (handle_unknown_sender desk mg none agent_group_id event db, false)
check_access desk event (some id) mg agent_group_id db =
    if str_eq id ""
    then (handle_unknown_sender desk mg none agent_group_id event db, false)
    else if is_allowed (can_access_agent_group id agent_group_id db)
    then (db, true)
    else (handle_unknown_sender desk mg (some id) agent_group_id event db, false)

-- the access gate, with whether the sender is let in
unfoldable pub access_gate :
    ApprovalDesk
    → InboundEvent
    → Option String
    → MessagingGroup
    → String
    → CentralDb
    → CentralDb × Bool
unfolding check_access
access_gate desk event user_id mg agent_group_id db =
    let checked = check_access desk event user_id mg agent_group_id db in
    by_policy mg.unknown_sender_policy checked checked (db, true)

unfoldable pub sender_scope_gate : Option String → MessagingGroupAgent → CentralDb → Bool
sender_scope_gate user_id agent db = elim agent.sender_scope [
  | all_senders ↦ true
  | known_senders ↦ elim user_id [
    | none ↦ false
    | some id ↦
        if str_eq id ""
        then false
        else is_allowed (can_access_agent_group id agent.agent_group_id db)
  ]
]
