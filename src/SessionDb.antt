-- ===== src/SessionDb.antt =====
-- src/db/session-db.ts and the tables of src/db/schema.ts (`INBOUND_SCHEMA`, `OUTBOUND_SCHEMA`):
-- the host's operations on the two SQLite files of a session. A table is the list of its rows in
-- insertion order. A timestamp column is the instant that its text denotes.
pub use Rows.*
mod Rows
use clawie.Prelude.{
  ℕ, ◌+◌, ◌-◌, ◌*◌, ◌/◌, ◌%◌, String, Bool, true, false, not, ◌&&◌, ◌||◌, Option, none, some, List,
  [], ◌∷◌, ◌++◌, map, if◌then◌else◌, ltb, leb, ◌==◌, str_eq, sql_eq, or_else, is_some, length,
  select, find, exists, update_where, delete_where, order_by, max_of,
}
use clawie.Json.{Content}

-- the WHERE clauses by id
abbrev pub has_id : String → MessageIn → Bool
has_id message_id m = str_eq m.id message_id

-- datetime(at) <= datetime('now'): both texts are cut to whole seconds, and a text that SQLite
-- cannot read makes the comparison NULL
unfoldable pub is_past : ℕ → Stamp → Bool
is_past now (instant ms) = leb (ms / 1000) (now / 1000)
is_past now unreadable = false

-- process_after IS NULL OR datetime(process_after) <= datetime('now')
unfoldable pub is_due : ℕ → Option Stamp → Bool
unfolding is_past
is_due now none = true
is_due now (some at) = is_past now at

unfoldable pub next_even_seq : List MessageIn → ℕ
next_even_seq rows =
    let max_seq = max_of (λ (m : MessageIn). m.seq) rows in
    if ltb max_seq 2 then 2 else max_seq + 2 - max_seq % 2

-- INSERT INTO messages_in: `none` is SQLite's error when the primary key `id` or the UNIQUE `seq`
-- is taken
unfoldable pub insert_row : MessageIn → InboundDb → Option InboundDb
insert_row row db =
    if exists (λ (m : MessageIn). str_eq m.id row.id || m.seq == row.seq) db.messages_in
    then none
    else some (record db { messages_in = db.messages_in ++ row ∷ [] })

-- the values of the INSERT, with the defaults of the fields left out
unfoldable pub new_row : ℕ → NewMessage → MessageIn
new_row seq message = record {
  id = message.id;
  seq = seq;
  kind = message.kind;
  timestamp = message.timestamp;
  status = pending;
  process_after = message.process_after;
  recurrence = message.recurrence;
  series_id = some message.id;
  tries = 0;
  trigger = or_else message.trigger true;
  platform_id = message.platform_id;
  channel_type = message.channel_type;
  thread_id = message.thread_id;
  content = message.content;
  source_session_id = message.source_session_id;
  on_wake = or_else message.on_wake false;
}

unfoldable pub insert_message : InboundDb → NewMessage → Option InboundDb
unfolding insert_row new_row
insert_message db message = insert_row (new_row (next_even_seq db.messages_in) message) db

unfoldable pub count_due_messages : ℕ → InboundDb → ℕ
unfolding is_due
count_due_messages now db = length (
    select
      (λ (m : MessageIn). is_status pending m.status && m.trigger && is_due now m.process_after)
      db.messages_in)

-- SET status = …
abbrev pub set_status : MessageStatus → MessageIn → MessageIn
set_status status m = record m { status = status }

unfoldable pub mark_message_failed : String → InboundDb → InboundDb
mark_message_failed message_id db = record db {
  messages_in = update_where (has_id message_id) (set_status failed) db.messages_in;
}

-- SET tries = tries + 1, process_after = datetime('now', '+n seconds'), which is written in whole
-- seconds
abbrev pub delay_row : ℕ → ℕ → MessageIn → MessageIn
delay_row now backoff_sec m = record m {
  tries = m.tries + 1;
  process_after = some (instant ((now / 1000 + backoff_sec) * 1000));
}

unfoldable pub retry_with_backoff : ℕ → String → ℕ → InboundDb → InboundDb
retry_with_backoff now message_id backoff_sec db = record db {
  messages_in = update_where (has_id message_id) (delay_row now backoff_sec) db.messages_in;
}

unfoldable pub get_message_for_retry : String → MessageStatus → InboundDb → Option MessageIn
get_message_for_retry message_id status db =
    find (λ (m : MessageIn). has_id message_id m && is_status status m.status) db.messages_in

-- WHERE id = ? AND status != 'completed'
abbrev pub is_uncompleted : String → MessageIn → Bool
is_uncompleted message_id m = has_id message_id m && not (is_status completed m.status)

unfoldable pub sync_ack : InboundDb → ProcessingAck → InboundDb
sync_ack db ack = record db {
  messages_in = update_where (is_uncompleted ack.message_id) (set_status completed) db.messages_in;
}

unfoldable pub sync_all : InboundDb → List ProcessingAck → InboundDb
unfolding sync_ack
sync_all db [] = db
sync_all db (ack ∷ acks) = sync_all (sync_ack db ack) acks

abbrev pub is_finished : ProcessingAck → Bool
is_finished ack = is_ack ack_completed ack.status || is_ack ack_failed ack.status

unfoldable pub sync_processing_acks : InboundDb → OutboundDb → InboundDb
unfolding sync_all
sync_processing_acks in_db out_db = sync_all in_db (select is_finished out_db.processing_ack)

abbrev pub is_processing : ProcessingAck → Bool
is_processing ack = is_ack ack_processing ack.status

unfoldable pub get_processing_claims : OutboundDb → List ProcessingAck
get_processing_claims db = select is_processing db.processing_ack

unfoldable pub get_stuck_processing_ids : OutboundDb → List String
get_stuck_processing_ids db =
    map (λ (a : ProcessingAck). a.message_id) (select is_processing db.processing_ack)

-- the new table and the number of rows deleted
unfoldable pub delete_orphan_processing_claims : OutboundDb → OutboundDb × ℕ
delete_orphan_processing_claims db = (
  record db { processing_ack = delete_where is_processing db.processing_ack },
  length (select is_processing db.processing_ack),
)

-- deliver_after <= datetime('now'), in order of timestamp
unfoldable pub get_due_outbound_messages : ℕ → OutboundDb → List MessageOut
unfolding is_due
get_due_outbound_messages now db =
    order_by (λ (a b : MessageOut). leb a.timestamp b.timestamp)
      (select (λ (m : MessageOut). is_due now m.deliver_after) db.messages_out)

unfoldable pub get_delivered_ids : InboundDb → List String
get_delivered_ids db = map (λ (d : Delivered). d.message_out_id) db.delivered

-- INSERT OR IGNORE INTO delivered
unfoldable pub insert_delivered : Delivered → InboundDb → InboundDb
insert_delivered row db =
    if exists (λ (d : Delivered). str_eq d.message_out_id row.message_out_id) db.delivered
    then db
    else record db { delivered = db.delivered ++ row ∷ [] }

unfoldable pub mark_delivered : String → Option String → InboundDb → InboundDb
unfolding insert_delivered
mark_delivered message_out_id platform_message_id = insert_delivered (record {
  message_out_id = message_out_id;
  platform_message_id = platform_message_id;
  status = delivered_ok;
})

unfoldable pub mark_delivery_failed : String → InboundDb → InboundDb
unfolding insert_delivered
mark_delivery_failed message_out_id = insert_delivered (record {
  message_out_id = message_out_id;
  platform_message_id = none;
  status = delivery_failed;
})

unfoldable pub get_inbound_source_session_id : String → InboundDb → Option String
get_inbound_source_session_id message_id db = elim (find (has_id message_id) db.messages_in) [
  | none ↦ none
  | some m ↦ m.source_session_id
]

abbrev is_from_peer : String → MessageIn → Bool
is_from_peer peer m =
    sql_eq m.channel_type "agent" && sql_eq m.platform_id peer && is_some m.source_session_id

unfoldable pub get_most_recent_peer_source_session_id : String → InboundDb → Option String
get_most_recent_peer_source_session_id peer db =
    elim (find (λ (m : MessageIn). true)
      (order_by (λ (a b : MessageIn). leb b.seq a.seq)
        (select (is_from_peer peer) db.messages_in))) [ none ↦ none | some m ↦ m.source_session_id ]
