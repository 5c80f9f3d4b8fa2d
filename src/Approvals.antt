-- ===== src/Approvals.antt =====
-- src/modules/approvals: primitive.ts asks someone who administers an agent group to approve an
-- action, and response-handler.ts applies what was approved. The statements on `pending_approvals`
-- are those of src/db/sessions.ts.
pub mod Requests
pub mod Responses
pub mod Reached
pub mod Asked
pub mod Clicks
pub mod Answered
pub mod Anyone
use Prim.Native.String.{◌++◌ as str_append}
use clawie.Prelude.{
  ℕ, String, Bool, true, false, not, ◌&&◌, ◌||◌, Option, none, some, List, [], ◌∷◌, ◌++◌,
  if◌then◌else◌, str_eq, or_else, find, exists, update_where, delete_where, is_some,
}
use clawie.Json.{Value, Content, json, plain, object, field, text, end}
use clawie.SessionDb.{NewMessage}
use clawie.Central.{Session, MessagingGroup, CentralDb, get_session, get_messaging_group}
use clawie.SessionManager.{Host, write_session_message}
use clawie.Permissions.{pick_approver}
use clawie.Permissions.Gates.{ResponsePayload}
use clawie.UserDm.{UserDm, DirectChats, Platforms, split_colon, ensure_user_dm}

pub data ApprovalStatus : Type 0 where
  pending approved rejected expired : ApprovalStatus

-- A row of `pending_approvals`, with the columns that are read back; the others are of the approvals
-- for credentials, or only shown.
pub record PendingApproval : Type 0 where
  pub approval_id : String
  pub session_id : Option String
  pub request_id : String
  pub action : String
  pub payload : Content
  pub created_at : ℕ
  pub status : ApprovalStatus
  pub title : String

-- A card that the delivery adapter was given.
pub record Card : Type 0 where
  pub channel_type : String
  pub platform_id : String
  pub question_id : String
  pub title : String
  pub question : String

-- What the module reads and writes: `waiting` are the credential approvals with a promise, and
-- `woken` the sessions whose containers were woken, in their order.
pub record ApprovalState : Type 0 where
  pub host : Host
  pub user_dms : List UserDm
  pub pending_approvals : List PendingApproval
  pub waiting : List String
  pub woken : List String
  pub cards : List Card

-- INSERT OR IGNORE
abbrev pub queued : PendingApproval → List PendingApproval → List PendingApproval
queued row rows =
    if exists (λ (r : PendingApproval). str_eq r.approval_id row.approval_id) rows
    then rows
    else rows ++ row ∷ []

unfoldable pub create_pending_approval : PendingApproval → ApprovalState → ApprovalState
create_pending_approval row s = record s { pending_approvals = queued row s.pending_approvals }

unfoldable pub get_pending_approval : String → ApprovalState → Option PendingApproval
get_pending_approval id s =
    find (λ (r : PendingApproval). str_eq r.approval_id id) s.pending_approvals

unfoldable pub update_pending_approval_status :
    String → ApprovalStatus → ApprovalState → ApprovalState
update_pending_approval_status id status s = record s {
  pending_approvals =
      update_where (λ (r : PendingApproval). str_eq r.approval_id id)
        (λ r. record r { status = status }) s.pending_approvals;
}

unfoldable pub delete_pending_approval : String → ApprovalState → ApprovalState
delete_pending_approval id s = record s {
  pending_approvals =
      delete_where (λ (r : PendingApproval). str_eq r.approval_id id) s.pending_approvals;
}

-- Picking

-- `channelTypeOf`
unfoldable pub channel_type_of : String → String
channel_type_of user_id = elim (split_colon user_id) [ none ↦ "" | some (prefix, handle) ↦ prefix ]

-- An approver and the chat with it, after what was written on the way; the outer `none` is an
-- exception.
abbrev pub Target : Type 0
Target = Option (DirectChats × Option (String × MessagingGroup))

abbrev pub or_others :
    String → (DirectChats → Target) → Option (DirectChats × Option MessagingGroup) → Target
or_others user_id others none = none
or_others user_id others (some (chats, none)) = others chats
or_others user_id others (some (chats, some mg)) = some (chats, some (user_id, mg))

-- a loop over the approvers that pass the test
unfoldable pub first_reachable :
    Platforms → ℕ → (String → Bool) → List String → DirectChats → Target
first_reachable platforms now wanted [] chats = some (chats, none)
first_reachable platforms now wanted (user_id ∷ others) chats =
    let rest = first_reachable platforms now wanted others in
    if wanted user_id
    then or_others user_id rest (ensure_user_dm platforms now user_id chats)
    else rest chats

abbrev pub or_all : (DirectChats → Target) → Target → Target
or_all all none = none
or_all all (some (chats, none)) = all chats
or_all all (some (chats, some found)) = some (chats, some found)

-- `pickApprovalDelivery`; the platforms answer the second loop anew
unfoldable pub pick_approval_delivery :
    Platforms → Platforms → ℕ → List String → String → DirectChats → Target
unfolding first_reachable channel_type_of
pick_approval_delivery platforms again now approvers origin_channel_type chats =
    let all = first_reachable again now (λ u. true) approvers in
    if str_eq origin_channel_type ""
    then all chats
    else or_all all (
        first_reachable platforms now (λ u. str_eq (channel_type_of u) origin_channel_type)
          approvers chats)

-- Messages of the module to an agent

-- What the module takes from outside: ids that are drawn, the staging of attachments, the platforms
-- for each loop, and what the delivery adapter does with a card: there is none, or it throws, or not.
pub data Delivers : Type 0 where
  no_adapter throws delivers : Delivers

pub record Desk : Type 0 where
  pub note_id : String
  pub approval_id : String
  pub stage : String → Content → Content
  pub platforms : Platforms
  pub again : Platforms
  pub delivery : Delivers

abbrev pub system_chat : Desk → ℕ → Session → String → NewMessage
system_chat desk now session words = record {
  id = desk.note_id;
  kind = "chat";
  timestamp = now;
  platform_id = some session.agent_group_id;
  channel_type = some "agent";
  thread_id = none;
  content = json (
      object (
        field "text" (text words)
          (field "sender" (text "system") (field "senderId" (text "system") end))));
  process_after = none;
  recurrence = none;
  trigger = none;
  source_session_id = none;
  on_wake = none;
}

abbrev pub with_host : ApprovalState → Option Host → Option ApprovalState
with_host s none = none
with_host s (some host) = some (record s { host = host })

-- the response handler's `notify`; `none` is an exception
unfoldable pub notify : Desk → ℕ → Session → String → ApprovalState → Option ApprovalState
notify desk now session words s =
    with_host s
      (write_session_message desk.stage now session.id (system_chat desk now session words) s.host)

abbrev pub wake : String → ApprovalState → ApprovalState
wake session_id s = record s { woken = s.woken ++ session_id ∷ [] }

abbrev pub wake_if_there : Session → Option ApprovalState → Option ApprovalState
wake_if_there session none = none
wake_if_there session (some s) =
    if is_some (get_session session.id s.host.central) then some (wake session.id s) else some s

-- `notifyAgent`
unfoldable pub notify_agent : Desk → ℕ → Session → String → ApprovalState → Option ApprovalState
unfolding notify get_session
notify_agent desk now session words s = wake_if_there session (notify desk now session words s)
