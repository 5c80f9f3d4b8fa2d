-- ===== src/Permissions/Gates/Cards.antt =====
-- The card about an unknown sender: src/modules/permissions/sender-approval.ts, and the answer to it in
-- src/modules/permissions/index.ts.
use clawie.Prelude.{
  ℕ, String, Bool, true, false, not, ◌&&◌, ◌||◌, Option, none, some, List, [], ◌∷◌, ◌++◌,
  if◌then◌else◌, str_eq, find, exists, delete_where, or_else,
}
use clawie.Inbound.{InboundEvent}
use clawie.Central.{CentralDb, PendingSenderApproval}
use clawie.Permissions.{has_admin_privilege, add_member, pick_approver}
use clawie.Permissions.Gates.Senders.{namespaced}

-- What the approval of a sender takes from outside: the id of its row, and the approver that
-- `pickApprovalDelivery` can reach.
pub record ApprovalDesk : Type 0 where
  pub fresh_id : String
  pub reachable : List String → Option String

abbrev pub is_in_flight : String → String → PendingSenderApproval → Bool
is_in_flight messaging_group_id sender_identity r =
    str_eq r.messaging_group_id messaging_group_id && str_eq r.sender_identity sender_identity

unfoldable pub has_in_flight_sender_approval : String → String → CentralDb → Bool
has_in_flight_sender_approval messaging_group_id sender_identity db =
    exists (is_in_flight messaging_group_id sender_identity) db.pending_sender_approvals

unfoldable pub delete_pending_sender_approval : String → CentralDb → CentralDb
delete_pending_sender_approval id db = record db {
  pending_sender_approvals =
      delete_where (λ (r : PendingSenderApproval). str_eq r.id id) db.pending_sender_approvals;
}

-- no approver is picked of none
abbrev pub reachable_approver : ApprovalDesk → List String → Option String
reachable_approver desk [] = none
reachable_approver desk (first ∷ others) = desk.reachable (first ∷ others)

abbrev pub with_pending : PendingSenderApproval → CentralDb → CentralDb
with_pending row db = record db {
  pending_sender_approvals = db.pending_sender_approvals ++ row ∷ [];
}

-- the primary key, and UNIQUE(messaging_group_id, sender_identity)
abbrev pub clashes : PendingSenderApproval → PendingSenderApproval → Bool
clashes row r = str_eq r.id row.id || is_in_flight row.messaging_group_id row.sender_identity r

-- `none` is the error of a key; the foreign keys are taken to hold
unfoldable pub create_pending_sender_approval : PendingSenderApproval → CentralDb → Option CentralDb
create_pending_sender_approval row db =
    if exists (clashes row) db.pending_sender_approvals then none else some (with_pending row db)

-- `requestSenderApproval` up to the await of `pickApprovalDelivery`, with the row that it inserts
-- where an approver is reached
unfoldable pub begin_sender_approval :
    ApprovalDesk
    → String
    → String
    → String
    → InboundEvent
    → CentralDb
    → Option PendingSenderApproval
begin_sender_approval desk messaging_group_id agent_group_id sender_identity event db =
    if has_in_flight_sender_approval messaging_group_id sender_identity db
    then none
    else elim (reachable_approver desk (pick_approver (some agent_group_id) db)) [
      | none ↦ none
      | some user_id ↦ some (record {
        id = desk.fresh_id;
        messaging_group_id = messaging_group_id;
        agent_group_id = agent_group_id;
        sender_identity = sender_identity;
        original_message = event;
        approver_user_id = user_id;
      })
    ]

-- The rest of it: the error of a key is logged by the caller. Sending the card changes no row.
unfoldable pub finish_sender_approval : PendingSenderApproval → CentralDb → CentralDb
unfolding create_pending_sender_approval
finish_sender_approval row db = or_else (create_pending_sender_approval row db) db

-- the whole request, where nothing happens during the await
unfoldable pub request_sender_approval :
    ApprovalDesk → String → String → String → InboundEvent → CentralDb → CentralDb
unfolding begin_sender_approval finish_sender_approval
request_sender_approval desk messaging_group_id agent_group_id sender_identity event db =
    elim (begin_sender_approval desk messaging_group_id agent_group_id sender_identity event db) [
      | none ↦ db
      | some row ↦ finish_sender_approval row db
    ]

-- the click on a card
pub record ResponsePayload : Type 0 where
  pub question_id : String
  pub value : String
  pub user_id : Option String
  pub channel_type : String

-- What a click does: whether it was claimed, the new tables, and the message to route again.
pub record ResponseOutcome : Type 0 where
  pub claimed : Bool
  pub central : CentralDb
  pub replay : Option InboundEvent

unfoldable pub get_pending_sender_approval : String → CentralDb → Option PendingSenderApproval
get_pending_sender_approval id db =
    find (λ (r : PendingSenderApproval). str_eq r.id id) db.pending_sender_approvals

unfoldable pub clicker_id : ResponsePayload → Option String
unfolding namespaced
clicker_id payload = elim payload.user_id [
  | none ↦ none
  | some id ↦ if str_eq id "" then none else some (namespaced payload.channel_type id)
]

unfoldable pub is_authorized : PendingSenderApproval → Option String → CentralDb → Bool
is_authorized row none db = false
is_authorized row (some clicker) db =
    str_eq clicker row.approver_user_id || has_admin_privilege clicker row.agent_group_id db

-- an approval
abbrev pub admit : ℕ → PendingSenderApproval → Option String → CentralDb → CentralDb
admit now row approver db = delete_pending_sender_approval row.id (
    add_member
      (record {
        user_id = row.sender_identity;
        agent_group_id = row.agent_group_id;
        added_by = approver;
        added_at = now;
      })
      db)

unfoldable pub handle_sender_approval_response : ℕ → ResponsePayload → CentralDb → ResponseOutcome
unfolding is_authorized
handle_sender_approval_response now payload db =
    elim (get_pending_sender_approval payload.question_id db) [
      | none ↦ record { claimed = false; central = db; replay = none }
      | some row ↦
          let clicker = clicker_id payload in
          if not (is_authorized row clicker db)
          then record { claimed = true; central = db; replay = none }
          else if str_eq payload.value "approve"
          then record {
            claimed = true;
            central = admit now row clicker db;
            replay = some row.original_message;
          }
          else record {
            claimed = true;
            central = delete_pending_sender_approval row.id db;
            replay = none;
          }
    ]
