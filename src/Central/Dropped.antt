-- ===== src/Central/Dropped.antt =====
-- src/db/dropped-messages.ts.
use clawie.Prelude.{
  ◌+◌, String, Bool, ◌&&◌, Option, none, some, [], ◌∷◌, ◌++◌, if◌then◌else◌, str_eq, exists,
  update_where,
}
use clawie.Central.Rows.{UnregisteredSender, CentralDb}

-- COALESCE(excluded.column, column)
abbrev coalesce : Option String → Option String → Option String
coalesce none old = old
coalesce (some new) old = some new

abbrev pub is_from : UnregisteredSender → UnregisteredSender → Bool
is_from msg s = str_eq s.channel_type msg.channel_type && str_eq s.platform_id msg.platform_id

abbrev pub drop_again : UnregisteredSender → UnregisteredSender → UnregisteredSender
drop_again msg s = record s {
  user_id = coalesce msg.user_id s.user_id;
  sender_name = coalesce msg.sender_name s.sender_name;
  reason = msg.reason;
  message_count = s.message_count + 1;
}

-- INSERT … ON CONFLICT (channel_type, platform_id) DO UPDATE; the new row's count is 1
unfoldable pub record_dropped_message : UnregisteredSender → CentralDb → CentralDb
record_dropped_message msg db = record db {
  unregistered_senders =
      if exists (is_from msg) db.unregistered_senders
      then update_where (is_from msg) (drop_again msg) db.unregistered_senders
      else db.unregistered_senders ++ record msg { message_count = 1 } ∷ [];
}
