-- ===== src/AgentRunner.antt =====
-- container/agent-runner/src/db/messages-in.ts, messages-out.ts and connection.ts: what the agent's
-- container reads of the host's `inbound.db`, and writes to its own `outbound.db`.
pub mod Seq
pub mod Steps
pub mod Output
use clawie.Prelude.{
  ℕ, ◌+◌, ◌%◌, max, String, Bool, true, false, not, ◌&&◌, ◌||◌, Option, none, some, List, [], ◌∷◌,
  ◌++◌, if◌then◌else◌, leb, ◌==◌, str_eq, is_some, take, select, find, exists, delete_where,
  order_by, max_of,
}
use mathlib.Core.List.{reverse}
use clawie.Json.{Content}
use clawie.SessionDb.{
  Stamp, instant, MessageIn, pending, is_status, InboundDb, OutboundDb, MessageOut, ProcessingAck,
  AckStatus, ack_processing, ack_completed, ack_failed, is_due, is_processing, Delivered,
}

abbrev pub has_ack : String → ProcessingAck → Bool
has_ack message_id ack = str_eq ack.message_id message_id

-- the WHERE clause of `getPendingMessages`; every row has the column `on_wake`
abbrev pub is_pending_now : ℕ → Bool → MessageIn → Bool
is_pending_now now is_first_poll m =
    is_status pending m.status && is_due now m.process_after && (not m.on_wake || is_first_poll)

-- ORDER BY seq DESC LIMIT n, without those that have an ack, the oldest first
unfoldable pub get_pending_messages : ℕ → ℕ → Bool → InboundDb → OutboundDb → List MessageIn
unfolding is_due
get_pending_messages now max_messages is_first_poll inbound outbound =
    let newest = take max_messages (
      order_by (λ (a b : MessageIn). leb b.seq a.seq)
        (select (is_pending_now now is_first_poll) inbound.messages_in)) in
    reverse (select (λ (m : MessageIn). not (exists (has_ack m.id) outbound.processing_ack)) newest)

-- INSERT OR REPLACE INTO processing_ack
unfoldable pub replace_ack : ℕ → AckStatus → OutboundDb → String → OutboundDb
replace_ack now status db message_id = record db {
  processing_ack =
      delete_where (has_ack message_id) db.processing_ack
      ++ record { message_id = message_id; status = status; status_changed = instant now } ∷ [];
}

unfoldable pub replace_acks : ℕ → AckStatus → OutboundDb → List String → OutboundDb
unfolding replace_ack
replace_acks now status db [] = db
replace_acks now status db (id ∷ ids) = replace_acks now status (replace_ack now status db id) ids

unfoldable pub mark_processing : ℕ → List String → OutboundDb → OutboundDb
unfolding replace_acks
mark_processing now ids db = replace_acks now ack_processing db ids

unfoldable pub mark_completed : ℕ → List String → OutboundDb → OutboundDb
unfolding replace_acks
mark_completed now ids db = replace_acks now ack_completed db ids

unfoldable pub mark_failed : ℕ → String → OutboundDb → OutboundDb
unfolding replace_ack
mark_failed now id db = replace_ack now ack_failed db id

unfoldable pub clear_stale_processing_acks : OutboundDb → OutboundDb
clear_stale_processing_acks db = record db {
  processing_ack = delete_where is_processing db.processing_ack;
}

-- The argument of `writeMessageOut`.
pub record WriteMessageOut : Type 0 where
  pub id : String
  pub in_reply_to : Option String
  pub deliver_after : Option Stamp
  pub kind : String
  pub platform_id : Option String
  pub channel_type : Option String
  pub thread_id : Option String
  pub content : Content

-- the next odd number above every seq of both tables
unfoldable pub next_odd_seq : InboundDb → OutboundDb → ℕ
next_odd_seq inbound outbound =
    let max_out = max_of (λ (m : MessageOut). m.seq) outbound.messages_out in
    let max_in = max_of (λ (m : MessageIn). m.seq) inbound.messages_in in
    let top = max max_out max_in in if top % 2 == 0 then top + 1 else top + 2

unfoldable pub new_out_row : ℕ → ℕ → WriteMessageOut → MessageOut
new_out_row now seq msg = record {
  id = msg.id;
  seq = seq;
  in_reply_to = msg.in_reply_to;
  timestamp = now;
  deliver_after = msg.deliver_after;
  kind = msg.kind;
  platform_id = msg.platform_id;
  channel_type = msg.channel_type;
  thread_id = msg.thread_id;
  content = msg.content;
}

-- `none` where the INSERT fails, the primary key `id` or the UNIQUE `seq` being taken
unfoldable pub write_message_out :
    ℕ → WriteMessageOut → InboundDb → OutboundDb → Option (OutboundDb × ℕ)
unfolding new_out_row
write_message_out now msg inbound outbound =
    let next_seq = next_odd_seq inbound outbound in
    if exists (λ (m : MessageOut). str_eq m.id msg.id || m.seq == next_seq) outbound.messages_out
    then none
    else some (
      record outbound { messages_out = outbound.messages_out ++ new_out_row now next_seq msg ∷ [] },
      next_seq,
    )

-- `writeRequest` of container/agent-runner/src/cli/clawie.ts: a command of the agent to the host,
-- with its own INSERT
unfoldable pub write_request :
    ℕ → String → Content → InboundDb → OutboundDb → Option (OutboundDb × ℕ)
unfolding write_message_out
write_request now id content inbound outbound =
    write_message_out now
      (record {
        id = id;
        in_reply_to = none;
        deliver_after = none;
        kind = "system";
        platform_id = none;
        channel_type = none;
        thread_id = none;
        content = content;
      })
      inbound outbound
