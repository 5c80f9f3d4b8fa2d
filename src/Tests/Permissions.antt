-- ===== src/Tests/Permissions.antt =====
-- The theorems of Permissions and of CommandGate at the sample users.
use clawie.Prelude.{
  String, ◌+◌, ◌≡◌, ◌≤◌, refl, true, false, none, some, List, [], ◌∷◌, arith, str_eq, count,
}
use clawie.Central.{CentralDb, UserRole, owner, admin, AgentGroupMember, PendingSenderApproval}
use clawie.Permissions.{
  add_all, get_owners, get_global_admins, get_admins_of_agent_group, pick_approver, get_user,
  grant_role, is_owner, is_global_admin, is_admin_of_agent_group, has_admin_privilege,
  has_membership_row, add_member, is_member, can_access_agent_group,
}
use clawie.Permissions.Gates.{
  ApprovalDesk, ResponsePayload, access_gate, check_access, request_sender_approval, is_in_flight,
  get_pending_sender_approval, clicker_id, is_authorized, handle_sender_approval_response,
  begin_sender_approval, finish_sender_approval, create_pending_sender_approval, namespaced,
  has_colon, delete_pending_sender_approval, has_in_flight_sender_approval,
}
use clawie.Permissions.Admission.{access_gate-approved}
use clawie.Permissions.Membership.{handle_sender_approval_response-members}
use clawie.Permissions.InFlight.{
  Requests, Step, begins, inserted, clashed, Reach, here, next, Reach-cards,
}
use clawie.CommandGate.{
  deny, command_of, message_text, is_admin, gate_command, trim_start, trim_end, first_word,
}
use clawie.Central.Names.{to_lower}
use clawie.CommandGate.Admin.{is_admin_lem}
use clawie.Tests.{central, family_chat, incoming, says, user}

abbrev db : CentralDb
db = central []

abbrev newcomer : AgentGroupMember
newcomer = record {
  user_id = "telegram:stranger";
  agent_group_id = "ag-helper";
  added_by = none;
  added_at = 9;
}

abbrev promotion : UserRole
promotion = record {
  user_id = "telegram:member";
  role = admin;
  agent_group_id = some "ag-writer";
  granted_at = 9;
}

abbrev promoted : CentralDb
promoted = record db {
  user_roles = some (
      record { user_id = "telegram:owner"; role = owner; agent_group_id = none; granted_at = 1 }
      ∷ record {
        user_id = "telegram:admin";
        role = admin;
        agent_group_id = some "ag-helper";
        granted_at = 2;
      }
      ∷ promotion
      ∷ []);
}

promotion-granted : grant_role promotion db ≡ some promoted
unfolding grant_role
promotion-granted = refl

abbrev desk : ApprovalDesk
desk = record { fresh_id = "nsa-1"; reachable = λ (ids : List String). some "telegram:admin" }

member_passes :
    (access_gate desk (incoming "hi") (some "telegram:member") family_chat "ag-helper" db).1 ≡ true
unfolding access_gate check_access can_access_agent_group get_user is_owner is_global_admin
    is_admin_of_agent_group is_member has_membership_row
member_passes = refl

abbrev request : PendingSenderApproval
request = record {
  id = "nsa-1";
  messaging_group_id = "mg-family";
  agent_group_id = "ag-helper";
  sender_identity = "telegram:stranger";
  original_message = incoming "hi";
  approver_user_id = "telegram:admin";
}

abbrev asked : CentralDb
asked = record db { pending_sender_approvals = request ∷ [] }

abbrev click : ResponsePayload
click = record {
  question_id = "nsa-1";
  value = "approve";
  user_id = some "admin";
  channel_type = "telegram";
}

click_found : get_pending_sender_approval "nsa-1" asked ≡ some request
unfolding get_pending_sender_approval
click_found = refl

click_authorized : is_authorized request (clicker_id click) asked ≡ true
unfolding is_authorized clicker_id namespaced has_colon
click_authorized = refl

stranger_known : get_user "telegram:stranger" asked ≡ some (user "telegram:stranger")
unfolding get_user
stranger_known = refl

stranger_outside : has_membership_row "telegram:stranger" "ag-helper" asked ≡ false
unfolding has_membership_row
stranger_outside = refl

stranger_inside :
    has_membership_row "telegram:stranger" "ag-helper"
      (handle_sender_approval_response 30 click asked).central
    ≡ true
unfolding has_membership_row handle_sender_approval_response get_pending_sender_approval
    is_authorized clicker_id namespaced has_colon add_member delete_pending_sender_approval
stranger_inside = refl

handle_sender_approval_response-members_example :
    (row : PendingSenderApproval) × (get_pending_sender_approval "nsa-1" asked ≡ some row)
    × (is_authorized row (clicker_id click) asked ≡ true)
    × (str_eq "approve" "approve" ≡ true)
    × (row.sender_identity ≡ "telegram:stranger")
    × (row.agent_group_id ≡ "ag-helper")
handle_sender_approval_response-members_example =
    handle_sender_approval_response-members 30 click asked "telegram:stranger" "ag-helper"
      stranger_outside stranger_inside

access_gate-approved_example :
    let out = handle_sender_approval_response 30 click asked in
    (out.replay ≡ some (incoming "hi"))
    × (get_pending_sender_approval "nsa-1" out.central ≡ none)
    × ((access_gate desk
          (incoming "hi")
          (some "telegram:stranger")
          family_chat
          "ag-helper"
          out.central).1
        ≡ true)
access_gate-approved_example =
    access_gate-approved 30 click asked request (user "telegram:stranger") desk (incoming "hi")
      family_chat click_found click_authorized refl stranger_known refl

abbrev second_request : PendingSenderApproval
second_request = record request { id = "nsa-2" }

-- Two messages of one sender, both before the way to the approver of the first is found.
abbrev requests : CentralDb → List PendingSenderApproval → List PendingSenderApproval → Requests
requests central waiting cards = record {
  central = central;
  waiting = waiting;
  cards = cards;
  answered = [];
}

first_begins : Step (requests db [] []) (requests db (request ∷ []) [])
unfolding begin_sender_approval has_in_flight_sender_approval pick_approver add_all get_owners
    get_global_admins get_admins_of_agent_group
first_begins =
    begins desk "mg-family" "ag-helper" "telegram:stranger" (incoming "hi") (requests db [] [])

second_begins :
    Step (requests db (request ∷ []) []) (requests db (request ∷ second_request ∷ []) [])
unfolding begin_sender_approval has_in_flight_sender_approval pick_approver add_all get_owners
    get_global_admins get_admins_of_agent_group
second_begins =
    begins (record desk { fresh_id = "nsa-2" }) "mg-family" "ag-helper" "telegram:stranger"
      (incoming "hi") (requests db (request ∷ []) [])

first_inserted :
    Step
      (requests db (request ∷ second_request ∷ []) [])
      (requests asked (second_request ∷ []) (request ∷ []))
unfolding finish_sender_approval create_pending_sender_approval
first_inserted =
    inserted request [] (second_request ∷ []) (requests db (request ∷ second_request ∷ []) []) refl
      refl

second_clashes :
    Step (requests asked (second_request ∷ []) (request ∷ [])) (requests asked [] (request ∷ []))
unfolding finish_sender_approval create_pending_sender_approval
second_clashes =
    clashed second_request [] [] (requests asked (second_request ∷ []) (request ∷ [])) refl refl

two_requests : Reach (requests db [] []) (requests asked [] (request ∷ []))
two_requests =
    next _ _ _
      (next _ _ _ (next _ _ _ (next _ _ _ (here _) first_begins) second_begins) first_inserted)
      second_clashes

Reach-cards_example :
    (count (is_in_flight "mg-family" "telegram:stranger") (request ∷ []) ≤ 1)
    × (count (is_in_flight "mg-family" "telegram:stranger") (request ∷ [])
        ≡ count (is_in_flight "mg-family" "telegram:stranger") (request ∷ [])
          + count (is_in_flight "mg-family" "telegram:stranger") [])
Reach-cards_example =
    Reach-cards (requests db [] []) (requests asked [] (request ∷ [])) "mg-family"
      "telegram:stranger" two_requests refl refl refl

-- The second request of the same sender is not written.
request_repeated :
    request_sender_approval desk "mg-family" "ag-helper" "telegram:stranger" (incoming "hi") asked
    ≡ asked
unfolding request_sender_approval begin_sender_approval has_in_flight_sender_approval
request_repeated = refl

is_admin_lem_example :
    is_admin (some "telegram:admin") "ag-helper" db
    ≡ has_admin_privilege "telegram:admin" "ag-helper" db
is_admin_lem_example =
    is_admin_lem "telegram:admin" "ag-helper" db refl refl
      ((λ e. refl), ((λ e. ground (arith, e)), tt))

-- The command of a member is denied, by its name in lower case.
command_denied :
    gate_command (says " /Clear all") (some "telegram:member") "ag-helper" db ≡ deny "/clear"
unfolding gate_command command_of message_text trim_start trim_end first_word to_lower is_admin
command_denied = refl
