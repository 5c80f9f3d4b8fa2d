-- ===== src/Approvals/Requests.antt =====
-- `requestApproval` of src/modules/approvals/primitive.ts.
use Prim.Native.String.{◌++◌ as str_append}
use clawie.Prelude.{ℕ, String, Option, none, some, List, [], ◌∷◌, ◌++◌, if◌then◌else◌, str_eq}
use clawie.Json.{Value, json}
use clawie.Central.{Session, MessagingGroup, CentralDb, get_messaging_group}
use clawie.Permissions.{pick_approver}
use clawie.UserDm.{DirectChats}
use clawie.Approvals.{
  pending, PendingApproval, Card, ApprovalState, create_pending_approval, Target,
  pick_approval_delivery, Delivers, no_adapter, throws, delivers, Desk, notify_agent,
}

pub record RequestApprovalOptions : Type 0 where
  pub session : Session
  pub action : String
  pub payload : Value
  pub title : String
  pub question : String

abbrev pub channel_type_or_empty : Option MessagingGroup → String
channel_type_or_empty none = ""
channel_type_or_empty (some mg) = mg.channel_type

unfoldable pub origin_channel_type : Session → CentralDb → String
unfolding get_messaging_group
origin_channel_type session db = elim session.messaging_group_id [
  | none ↦ ""
  | some id ↦ if str_eq id "" then "" else channel_type_or_empty (get_messaging_group id db)
]

abbrev pub approval_row : Desk → ℕ → RequestApprovalOptions → PendingApproval
approval_row desk now opts = record {
  approval_id = desk.approval_id;
  session_id = some opts.session.id;
  request_id = desk.approval_id;
  action = opts.action;
  payload = json opts.payload;
  created_at = now;
  status = pending;
  title = opts.title;
}

abbrev pub card_of : Desk → RequestApprovalOptions → MessagingGroup → Card
card_of desk opts mg = record {
  channel_type = mg.channel_type;
  platform_id = mg.platform_id;
  question_id = desk.approval_id;
  title = opts.title;
  question = opts.question;
}

abbrev pub chats_of : ApprovalState → DirectChats
chats_of s = record { central = s.host.central; user_dms = s.user_dms }

abbrev pub with_chats : DirectChats → ApprovalState → ApprovalState
with_chats chats s = record s {
  host = record (s.host) { central = chats.central };
  user_dms = chats.user_dms;
}

abbrev pub failed : RequestApprovalOptions → String → String
failed opts why = str_append opts.action (str_append " failed: " why)

-- the card, once its row is there
abbrev pub send_card :
    Desk
    → ℕ
    → RequestApprovalOptions
    → String
    → MessagingGroup
    → Delivers
    → ApprovalState
    → Option ApprovalState
send_card desk now opts user_id mg no_adapter s = some s
send_card desk now opts user_id mg delivers s =
    some (record s { cards = s.cards ++ card_of desk opts mg ∷ [] })
send_card desk now opts user_id mg throws s =
    notify_agent desk now opts.session
      (failed opts (str_append "could not deliver approval request to " (str_append user_id "."))) s

abbrev pub ask_target :
    Desk → ℕ → RequestApprovalOptions → Target → ApprovalState → Option ApprovalState
ask_target desk now opts none s = none
ask_target desk now opts (some (chats, none)) s =
    notify_agent desk now opts.session
      (failed opts "no DM channel found for any eligible approver.") (with_chats chats s)
ask_target desk now opts (some (chats, some (user_id, mg))) s =
    send_card desk now opts user_id mg desk.delivery
      (create_pending_approval (approval_row desk now opts) (with_chats chats s))

abbrev pub ask_one_of :
    Desk → ℕ → RequestApprovalOptions → List String → ApprovalState → Option ApprovalState
ask_one_of desk now opts [] s =
    notify_agent desk now opts.session (failed opts "no owner or admin configured to approve.") s
ask_one_of desk now opts (first ∷ others) s =
    ask_target desk now opts
      (pick_approval_delivery desk.platforms desk.again now (first ∷ others)
        (origin_channel_type opts.session s.host.central) (chats_of s))
      s

-- `none` is an exception
unfoldable pub request_approval :
    Desk → ℕ → RequestApprovalOptions → ApprovalState → Option ApprovalState
unfolding pick_approver notify_agent create_pending_approval pick_approval_delivery
    origin_channel_type
request_approval desk now opts s =
    ask_one_of desk now opts (pick_approver (some opts.session.agent_group_id) s.host.central) s
