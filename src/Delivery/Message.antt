-- ===== src/Delivery/Message.antt =====
-- `deliverMessage` of src/delivery.ts: system actions, the permission check and the send.
use clawie.Prelude.{
  String, Bool, true, false, not, ◌&&◌, ◌||◌, Option, none, some, [], ◌∷◌, ◌++◌, if◌then◌else◌,
  str_eq, sql_eq, is_some,
}
use clawie.Json.{json, plain, Value, null, as_string, get}
use clawie.SessionDb.{MessageOut}
use clawie.Central.{
  CentralDb, Session, MessagingGroup, channel, get_messaging_group, get_messaging_group_by_platform,
  has_destination,
}
use clawie.Delivery.State.{
  Sent, DeliveryState, Outside, Outcome, done, threw, non_empty, track_question,
}

-- handleSystemAction; `content.action` throws on null, and no handler has the key of a value that
-- is not a text
unfoldable pub handle_system_action : Outside → Value → DeliveryState → DeliveryState × Outcome
handle_system_action outside null s = (s, threw)
handle_system_action outside content s = elim (as_string (get "action" content)) [
  | none ↦ (s, done none)
  | some action ↦ elim (outside.actions action) [
    | none ↦ (s, done none)
    | some handler ↦
        let (db, ok) = handler content s.inbound in
        (record s { inbound = db }, if ok then done none else threw)
  ]
]

-- session.messaging_group_id ? getMessagingGroup(…) : undefined
unfoldable pub origin_group : CentralDb → Session → Option MessagingGroup
origin_group central session = elim (non_empty session.messaging_group_id) [
  | none ↦ none
  | some id ↦ get_messaging_group id central
]

abbrev pub is_origin_chat : Option MessagingGroup → String → String → Bool
is_origin_chat none channel_type platform_id = false
is_origin_chat (some mg) channel_type platform_id =
    str_eq mg.channel_type channel_type && str_eq mg.platform_id platform_id

-- The permission check: false is the error of an unknown or an unauthorized destination.
unfoldable pub may_deliver : CentralDb → Session → String → String → Bool
unfolding origin_group
may_deliver central session channel_type platform_id =
    if is_origin_chat (origin_group central session) channel_type platform_id
      || not (is_some central.agent_destinations)
    then true
    else elim (get_messaging_group_by_platform channel_type platform_id central) [
      | none ↦ false
      | some mg ↦ has_destination session.agent_group_id channel mg.id central
    ]

abbrev pub account_of : Option MessagingGroup → Option String
account_of none = none
account_of (some mg) = mg.channel_account

-- the send itself; the typing action before it and the files cannot fail the delivery
unfoldable pub send_message :
    Outside
    → CentralDb
    → Session
    → MessageOut
    → String
    → String
    → DeliveryState
    → DeliveryState × Outcome
unfolding origin_group
send_message outside central session msg channel_type platform_id s =
    let sent : Sent = record {
      message_id = msg.id;
      channel_type = channel_type;
      platform_id = platform_id;
      thread_id = msg.thread_id;
      account = account_of (origin_group central session);
    } in
    let s' = record s { sent = s.sent ++ sent ∷ [] } in
    elim (outside.send sent) [
      | none ↦ (s', threw)
      | some platform_msg_id ↦ (s', done platform_msg_id)
    ]

-- nothing is sent where a field is missing, and the message counts as delivered
abbrev pub send_if_addressed :
    Outside
    → CentralDb
    → Session
    → MessageOut
    → Option String
    → Option String
    → DeliveryState
    → DeliveryState × Outcome
send_if_addressed outside central session msg (some channel_type) (some platform_id) s =
    send_message outside central session msg channel_type platform_id s
send_if_addressed outside central session msg _ _ s = (s, done none)

-- the rest of the function after the permission check; `content.type` throws on null
unfoldable pub track_and_send :
    Outside
    → CentralDb
    → Session
    → MessageOut
    → Value
    → Option String
    → Option String
    → DeliveryState
    → DeliveryState × Outcome
track_and_send outside central session msg null channel_type platform_id s = (s, threw)
track_and_send outside central session msg content channel_type platform_id s =
    elim (track_question session msg content s) [
      | none ↦ (s, threw)
      | some tracked ↦
          send_if_addressed outside central session msg channel_type platform_id tracked
    ]

-- the permission check is made where both fields are there
abbrev pub is_permitted : CentralDb → Session → Option String → Option String → Bool
is_permitted central session (some channel_type) (some platform_id) =
    may_deliver central session channel_type platform_id
is_permitted central session _ _ = true

unfoldable pub deliver_to_channel :
    Outside → CentralDb → Session → MessageOut → Value → DeliveryState → DeliveryState × Outcome
unfolding track_question send_message
deliver_to_channel outside central session msg content s =
    let channel_type = non_empty msg.channel_type in
    let platform_id = non_empty msg.platform_id in
    let delivered = track_and_send outside central session msg content channel_type platform_id s in
    if is_permitted central session channel_type platform_id then delivered else (s, threw)

-- `deliverMessage`; no adapter is `none`
unfoldable pub deliver_message :
    Option Outside → CentralDb → Session → MessageOut → DeliveryState → DeliveryState × Outcome
unfolding handle_system_action deliver_to_channel
deliver_message none central session msg s = (s, done none)
deliver_message (some outside) central session msg s = elim msg.content [
  | plain raw ↦ (s, threw)
  | json content ↦
      if str_eq msg.kind "system"
      then handle_system_action outside content s
      else if sql_eq msg.channel_type "agent"
      then (
        s,
        if is_some central.agent_destinations && outside.route_agent_message msg
            then done none
            else threw,
      )
      else deliver_to_channel outside central session msg content s
]
