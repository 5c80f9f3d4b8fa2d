-- ===== src/Tests/Approvals.antt =====
-- The theorems of Approvals and UserDm where the helper asks for packages and its admin approves.
use clawie.Prelude.{
  String, true, false, Option, none, some, [], ◌∷◌, ◌++◌, ◌≡◌, refl, str_eq, arith, is_some,
  if◌then◌else◌,
}
use clawie.Json.{Value, text, object, field, end}
use clawie.Central.{MessagingGroup, strict, get_session}
use clawie.Permissions.Gates.{ResponsePayload}
use clawie.UserDm.{DirectChats, Platforms, ensure_user_dm}
use clawie.UserDm.Again.{ensure_user_dm-again}
use clawie.Approvals.{ApprovalState, Desk, delivers, get_pending_approval, delete_pending_approval}
use clawie.Approvals.Requests.{RequestApprovalOptions, approval_row, card_of, request_approval}
use clawie.Approvals.Responses.{
  Handler, begin_response, finish_response, session_of_row, handle_approvals_response, claimed,
}
use clawie.Approvals.Asked.{Asks, request_approval-Asks}
use clawie.Approvals.Clicks.{begin_response-ends}
use clawie.Approvals.Answered.{Applied, approval_by, request_approval-approved}
use clawie.Approvals.Anyone.{Run, without_user, handle_approvals_response-anyone}
use clawie.Tests.{host, session_of, central}

abbrev platforms : Platforms
platforms = record {
  has_adapter = λ c. str_eq c "telegram";
  open_dm = λ c. none;
  fresh_id = λ user_id. "mg-dm";
}

abbrev no_chats : DirectChats
no_chats = record { central = central []; user_dms = [] }

abbrev admin_chat : MessagingGroup
admin_chat = record {
  id = "mg-dm";
  channel_type = "telegram";
  platform_id = "admin";
  name = none;
  is_group = false;
  unknown_sender_policy = strict;
  denied_at = none;
  channel_account = none;
}

abbrev one_chat : DirectChats
one_chat = record {
  central = record (central []) {
    messaging_groups = (central []).messaging_groups ++ admin_chat ∷ [];
  };
  user_dms =
      record {
        user_id = "telegram:admin";
        channel_type = "telegram";
        messaging_group_id = "mg-dm";
        resolved_at = 5;
      }
      ∷ [];
}

admin_chat_created :
    ensure_user_dm platforms 5 "telegram:admin" no_chats ≡ some (one_chat, some admin_chat)
unfolding ensure_user_dm
admin_chat_created = refl

ensure_user_dm-again_example :
    ensure_user_dm
      (record platforms { open_dm = λ c. some (λ h. none); fresh_id = λ u. "mg-2" })
      9
      "telegram:admin"
      one_chat
    ≡ some (one_chat, some admin_chat)
ensure_user_dm-again_example =
    ensure_user_dm-again platforms 5 9 (λ c. some (λ h. none)) (λ u. "mg-2") "telegram:admin"
      no_chats one_chat admin_chat admin_chat_created (omega arith)

abbrev desk : Desk
desk = record {
  note_id = "note-1";
  approval_id = "appr-1";
  stage = λ id content. content;
  platforms = platforms;
  again = platforms;
  delivery = delivers;
}

abbrev packages : Value
packages = object (field "npm" (text "left-pad") end)

abbrev request : RequestApprovalOptions
request = record {
  session = session_of "s-helper" "ag-helper";
  action = "install_packages";
  payload = packages;
  title = "Install packages";
  question = "Install left-pad?";
}

abbrev idle : ApprovalState
idle = record {
  host = host [];
  user_dms = [];
  pending_approvals = [];
  waiting = [];
  woken = [];
  cards = [];
}

abbrev asked : ApprovalState
asked = record idle {
  host = record (host []) { central = one_chat.central };
  user_dms = one_chat.user_dms;
  pending_approvals = approval_row desk 5 request ∷ [];
  cards = card_of desk request admin_chat ∷ [];
}

-- The admin of the group is asked, before the owner.
admin_asked : request_approval desk 5 request idle ≡ some asked
unfolding request_approval clawie.Permissions.get_owners clawie.Permissions.get_global_admins
    clawie.Permissions.get_admins_of_agent_group ensure_user_dm
admin_asked = refl

request_approval-Asks_example : Asks desk 5 request idle (request_approval desk 5 request idle)
request_approval-Asks_example = request_approval-Asks desk 5 request idle refl

abbrev install : Handler
install session payload user_id s = (s, none)

abbrev handlers : String → Option Handler
handlers action = if str_eq action "install_packages" then some install else none

none_before : get_pending_approval "appr-1" idle ≡ none
unfolding get_pending_approval
none_before = refl

one_after : is_some (get_pending_approval "appr-1" asked) ≡ true
unfolding get_pending_approval
one_after = refl

helper_there : get_session "s-helper" asked.host.central ≡ some (session_of "s-helper" "ag-helper")
unfolding get_session
helper_there = refl

request_approval-approved_example :
    Applied desk 6 "appr-1" "install_packages"
      (session_of "s-helper" "ag-helper")
      (install (session_of "s-helper" "ag-helper") packages "telegram:admin" asked)
      (handle_approvals_response desk 6 handlers
        (approval_by (some "telegram:admin") "appr-1")
        asked)
request_approval-approved_example =
    request_approval-approved desk desk 5 6 request handlers install idle asked
      (some "telegram:admin") admin_asked refl refl refl none_before refl one_after helper_there
      refl

abbrev answered : ApprovalState
answered = record asked { pending_approvals = []; woken = "s-helper" ∷ [] }

admin_approves :
    handle_approvals_response desk 6 handlers (approval_by (some "telegram:admin") "appr-1") asked
    ≡ some (true, answered)
unfolding handle_approvals_response
admin_approves = refl

abbrev approves : ResponsePayload
approves = approval_by (some "telegram:admin") "appr-1"

install_begins :
    begin_response handlers approves asked
    ≡ some (approval_row desk 5 request, session_of "s-helper" "ag-helper", install, packages)
unfolding begin_response get_pending_approval get_session
install_begins = refl

row_found : get_pending_approval "appr-1" asked ≡ some (approval_row desk 5 request)
unfolding get_pending_approval
row_found = refl

session_found : session_of_row (some "s-helper") asked ≡ some (session_of "s-helper" "ag-helper")
unfolding get_session
session_found = refl

install_ends :
    finish_response desk 6
      (approval_row desk 5 request)
      (session_of "s-helper" "ag-helper")
      (asked, none)
    ≡ some answered
unfolding finish_response delete_pending_approval
install_ends = refl

begin_response-ends_example :
    (begin_response handlers approves asked
      ≡ some (approval_row desk 5 request, session_of "s-helper" "ag-helper", install, packages))
    × (handle_approvals_response desk 8 handlers approves answered ≡ some (false, answered))
    × (handle_approvals_response desk 6 handlers approves asked
        ≡ claimed (
            finish_response desk 6
              (approval_row desk 5 request)
              (session_of "s-helper" "ag-helper")
              (install (session_of "s-helper" "ag-helper") packages "telegram:admin" asked)))
begin_response-ends_example =
    begin_response-ends desk desk 6 8 handlers approves approves asked asked asked answered none
      (approval_row desk 5 request) (session_of "s-helper" "ag-helper") install packages
      install_begins refl refl refl row_found session_found install_ends refl

abbrev runs : String → Option Run
runs action =
    if str_eq action "install_packages"
    then some (λ session payload s. (s, some "no network"))
    else none

handle_approvals_response-anyone_example :
    handle_approvals_response desk 6
      (λ a. without_user (runs a))
      (record (approval_by (some "telegram:admin") "appr-1") { user_id = some "telegram:stranger" })
      asked
    ≡ handle_approvals_response desk 6
        (λ a. without_user (runs a))
        (approval_by (some "telegram:admin") "appr-1")
        asked
handle_approvals_response-anyone_example =
    handle_approvals_response-anyone desk 6 runs (approval_by (some "telegram:admin") "appr-1")
      (some "telegram:stranger") asked
