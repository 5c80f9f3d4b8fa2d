-- ===== src/Inbound.antt =====
-- src/channels/adapter.ts: what a channel adapter hands to the host for a message that came in.
use clawie.Prelude.{ℕ, String, Bool, Option}
use clawie.Json.{Content}

pub record DeliveryAddress : Type 0 where
  pub channel_type : String
  pub platform_id : String
  pub thread_id : Option String

pub data InboundKind : Type 0 where
  chat chat_sdk : InboundKind

-- The nested `message` is flattened; an absent flag is false.
pub record InboundEvent : Type 0 where
  pub channel_type : String
  pub channel_account : Option String
  pub platform_id : String
  pub thread_id : Option String
  pub message_id : String
  pub kind : InboundKind
  pub content : Content
  pub timestamp : ℕ
  pub is_mention : Bool
  pub is_group : Bool
  pub reply_to : Option DeliveryAddress
