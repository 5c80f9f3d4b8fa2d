-- ===== src/SessionDb/Rows.antt =====
-- The rows of a session's two databases (src/db/schema.ts, src/db/session-db.ts, src/types.ts).
use clawie.Prelude.{ℕ, String, Bool, true, false, Option, List}
use clawie.Json.{Content}

-- The text of a timestamp column: the milliseconds since the epoch that it denotes, or a text
-- that neither SQLite nor `Date.parse` reads.
pub data Stamp : Type 0 where
  instant : ℕ → Stamp
  unreadable : Stamp

-- messages_in.status, `paused` being the scheduling module's
pub data MessageStatus : Type 0 where
  pending completed failed paused : MessageStatus

abbrev pub is_status : MessageStatus → MessageStatus → Bool
is_status pending pending = true
is_status completed completed = true
is_status failed failed = true
is_status paused paused = true
is_status _ _ = false

-- processing_ack.status
pub data AckStatus : Type 0 where
  ack_processing ack_completed ack_failed : AckStatus

abbrev pub is_ack : AckStatus → AckStatus → Bool
is_ack ack_processing ack_processing = true
is_ack ack_completed ack_completed = true
is_ack ack_failed ack_failed = true
is_ack _ _ = false

pub record MessageIn : Type 0 where
  pub id : String
  pub seq : ℕ
  pub kind : String
  pub timestamp : ℕ
  pub status : MessageStatus
  pub process_after : Option Stamp
  pub recurrence : Option String
  pub series_id : Option String
  pub tries : ℕ
  pub trigger : Bool
  pub platform_id : Option String
  pub channel_type : Option String
  pub thread_id : Option String
  pub content : Content
  pub source_session_id : Option String
  pub on_wake : Bool

-- The argument of `insertMessage`; `trigger` and `on_wake` may be left out.
pub record NewMessage : Type 0 where
  pub id : String
  pub kind : String
  pub timestamp : ℕ
  pub platform_id : Option String
  pub channel_type : Option String
  pub thread_id : Option String
  pub content : Content
  pub process_after : Option Stamp
  pub recurrence : Option String
  pub trigger : Option Bool
  pub source_session_id : Option String
  pub on_wake : Option Bool

pub data DeliveryStatus : Type 0 where
  delivered_ok delivery_failed : DeliveryStatus

-- A row of `delivered`; the column `delivered_at` is never read.
pub record Delivered : Type 0 where
  pub message_out_id : String
  pub platform_message_id : Option String
  pub status : DeliveryStatus

pub record InboundDb : Type 0 where
  pub messages_in : List MessageIn
  pub delivered : List Delivered

pub record MessageOut : Type 0 where
  pub id : String
  pub seq : ℕ
  pub in_reply_to : Option String
  pub timestamp : ℕ
  pub deliver_after : Option Stamp
  pub kind : String
  pub platform_id : Option String
  pub channel_type : Option String
  pub thread_id : Option String
  pub content : Content

pub record ProcessingAck : Type 0 where
  pub message_id : String
  pub status : AckStatus
  pub status_changed : Stamp

-- The single row of `container_state`; `tool_started_at` is never read by the host.
pub record ContainerState : Type 0 where
  pub current_tool : Option String
  pub tool_declared_timeout_ms : Option ℕ

pub record OutboundDb : Type 0 where
  pub messages_out : List MessageOut
  pub processing_ack : List ProcessingAck
  pub container_state : Option ContainerState
