-- ===== src/Delivery.antt =====
-- src/delivery.ts: the outbound messages of a session are drained to the channel adapter, with the
-- check of their destination, retries, and a guard against two drains at once.
pub mod State
pub mod Message
pub mod Effect
pub mod Access
pub mod Marks
pub mod Drain
pub mod Rounds
pub mod Polls
unfoldable pub use State.*
unfoldable pub use Message.*
use clawie.Prelude.{
  ℕ, zero, suc, ◌+◌, String, Bool, true, false, not, ◌&&◌, ◌||◌, Option, none, some, List, [], ◌∷◌,
  ◌++◌, if◌then◌else◌, leb, str_eq, sql_eq, opt_eq, is_some, select, find, exists, delete_where,
}
use clawie.Json.{
  Content, json, plain, Value, Items, nil, cons, text, null, truthy, as_string, as_items, get,
}
use clawie.SessionDb.{
  InboundDb, OutboundDb, MessageOut, Delivered, mark_delivered, mark_delivery_failed,
  get_delivered_ids, get_due_outbound_messages,
}
use clawie.Central.{
  CentralDb, Session, MessagingGroup, channel, get_agent_group, get_messaging_group,
  get_messaging_group_by_platform, has_destination,
}

abbrev pub max_delivery_attempts : ℕ
max_delivery_attempts = 3

abbrev pub update : (String → ℕ) → String → ℕ → String → ℕ
update attempts id n key = if str_eq id key then n else attempts key

-- the loop's body after the call of `deliverMessage`, and its catch block
unfoldable pub settle : String → DeliveryState → Outcome → DeliveryState
settle id s (done platform_msg_id) = record s {
  inbound = mark_delivered id platform_msg_id s.inbound;
  attempts = update s.attempts id 0;
}
settle id s threw =
    let attempts = s.attempts id + 1 in
    if leb max_delivery_attempts attempts
    then record s { inbound = mark_delivery_failed id s.inbound; attempts = update s.attempts id 0 }
    else record s { attempts = update s.attempts id attempts }

-- the body of the loop of `drainSession`
unfoldable pub drain_message :
    Option Outside → CentralDb → Session → MessageOut → DeliveryState → DeliveryState
unfolding settle
drain_message adapter central session msg s =
    let (s', outcome) = deliver_message adapter central session msg s in settle msg.id s' outcome

unfoldable pub drain_messages :
    Option Outside → CentralDb → Session → List MessageOut → DeliveryState → DeliveryState
drain_messages adapter central session [] s = s
drain_messages adapter central session (msg ∷ rest) s =
    drain_messages adapter central session rest (drain_message adapter central session msg s)

abbrev pub is_listed : List String → String → Bool
is_listed [] id = false
is_listed (d ∷ ids) id = str_eq d id || is_listed ids id

unfoldable pub undelivered : ℕ → OutboundDb → InboundDb → List MessageOut
undelivered now out_db in_db =
    select (λ (m : MessageOut). not (is_listed (get_delivered_ids in_db) m.id))
      (get_due_outbound_messages now out_db)

unfoldable pub drain_session :
    ℕ → Option Outside → CentralDb → Session → OutboundDb → DeliveryState → DeliveryState
drain_session now adapter central session out_db s =
    elim (get_agent_group session.agent_group_id central) [
      | none ↦ s
      | some group ↦ drain_messages adapter central session (undelivered now out_db s.inbound) s
    ]
