-- ===== src/UserDm.antt =====
-- src/modules/permissions/user-dm.ts and db/user-dms.ts: the chat in which a user is written to.
pub mod Again
use Prim.Native.Char.{Char, code}
use Prim.Native.String.{[] as empty, ◌∷◌ as str_cons}
use clawie.Prelude.{
  ℕ, String, Bool, true, false, not, ◌&&◌, ◌||◌, Option, none, some, List, [], ◌∷◌, ◌++◌,
  if◌then◌else◌, str_eq, ◌==◌, find, exists, update_where,
}
use clawie.Central.{
  User, MessagingGroup, CentralDb, strict, get_messaging_group, get_messaging_group_by_platform,
  create_messaging_group,
}
use clawie.Paths.{cons_prefix}
use clawie.Permissions.{get_user}

pub record UserDm : Type 0 where
  pub user_id : String
  pub channel_type : String
  pub messaging_group_id : String
  pub resolved_at : ℕ

-- The central tables with `user_dms`.
pub record DirectChats : Type 0 where
  pub central : CentralDb
  pub user_dms : List UserDm

abbrev pub is_dm : String → String → UserDm → Bool
is_dm user_id channel_type row = str_eq row.user_id user_id && str_eq row.channel_type channel_type

unfoldable pub get_user_dm : String → String → DirectChats → Option UserDm
get_user_dm user_id channel_type chats = find (is_dm user_id channel_type) chats.user_dms

unfoldable pub upsert_user_dm : UserDm → DirectChats → DirectChats
upsert_user_dm row chats = record chats {
  user_dms =
      if exists (is_dm row.user_id row.channel_type) chats.user_dms
      then update_where (is_dm row.user_id row.channel_type)
          (λ r. record r {
            messaging_group_id = row.messaging_group_id;
            resolved_at = row.resolved_at;
          })
          chats.user_dms
      else chats.user_dms ++ row ∷ [];
}

-- The adapters that are registered, what `openDM` answers where an adapter has it (`none` is its
-- exception), and the id that is drawn for a chat with a user.
pub record Platforms : Type 0 where
  pub has_adapter : String → Bool
  pub open_dm : String → Option (String → Option String)
  pub fresh_id : String → String

-- the texts before and after the first colon
abbrev pub split_colon : String → Option (String × String)
split_colon empty = none
split_colon (str_cons c s) =
    let rest = split_colon s in if code c == b':' then some (empty, s) else cons_prefix c rest

abbrev pub addressed : Platforms → User → Option (String × String) → Option (String × String)
addressed platforms user none = none
addressed platforms user (some (prefix, handle)) =
    if str_eq prefix "" || str_eq handle ""
    then none
    else if not (platforms.has_adapter prefix)
        && not (str_eq user.kind "")
        && platforms.has_adapter user.kind
    then some (user.kind, user.id)
    else some (prefix, handle)

-- the channel and the handle of a user
unfoldable pub parse_user_id : Platforms → User → Option (String × String)
parse_user_id platforms user = addressed platforms user (split_colon user.id)

abbrev pub opened : Option (String → Option String) → String → Option String
opened none handle = some handle
opened (some answer) handle = answer handle

unfoldable pub resolve_dm_platform_id : Platforms → String → String → Option String
resolve_dm_platform_id platforms channel_type handle =
    if platforms.has_adapter channel_type
    then opened (platforms.open_dm channel_type) handle
    else none

abbrev pub cached_group : Option UserDm → CentralDb → Option MessagingGroup
cached_group none db = none
cached_group (some row) db = get_messaging_group row.messaging_group_id db

abbrev pub dm_group : String → User → String → String → MessagingGroup
dm_group id user channel_type platform_id = record {
  id = id;
  channel_type = channel_type;
  platform_id = platform_id;
  name = user.display_name;
  is_group = false;
  unknown_sender_policy = strict;
  denied_at = none;
  channel_account = none;
}

abbrev pub created : MessagingGroup → Option CentralDb → Option (CentralDb × MessagingGroup)
created group none = none
created group (some db) = some (db, group)

-- `none` is the exception of the INSERT
abbrev pub found_or_created :
    MessagingGroup → Option MessagingGroup → CentralDb → Option (CentralDb × MessagingGroup)
found_or_created group none db = created group (create_messaging_group group db)
found_or_created group (some mg) db = some (db, mg)

abbrev pub remembered :
    ℕ
    → String
    → String
    → DirectChats
    → Option (CentralDb × MessagingGroup)
    → Option (DirectChats × Option MessagingGroup)
remembered now user_id channel_type chats none = none
remembered now user_id channel_type chats (some (db, mg)) = some (
  upsert_user_dm
      (record {
        user_id = user_id;
        channel_type = channel_type;
        messaging_group_id = mg.id;
        resolved_at = now;
      })
      (record chats { central = db }),
  some mg,
)

-- the chat with an id of the platform, where there is one
abbrev pub at_platform_id :
    Platforms
    → ℕ
    → User
    → String
    → DirectChats
    → Option String
    → Option (DirectChats × Option MessagingGroup)
at_platform_id platforms now user channel_type chats none = some (chats, none)
at_platform_id platforms now user channel_type chats (some platform_id) =
    if str_eq platform_id ""
    then some (chats, none)
    else remembered now user.id channel_type chats (
        found_or_created (dm_group (platforms.fresh_id user.id) user channel_type platform_id)
          (get_messaging_group_by_platform channel_type platform_id chats.central) chats.central)

abbrev pub from_cache :
    Platforms
    → ℕ
    → User
    → String × String
    → DirectChats
    → Option MessagingGroup
    → Option (DirectChats × Option MessagingGroup)
from_cache platforms now user address chats (some mg) = some (chats, some mg)
from_cache platforms now user (channel_type, handle) chats none =
    at_platform_id platforms now user channel_type chats
      (resolve_dm_platform_id platforms channel_type handle)

abbrev pub at_address :
    Platforms
    → ℕ
    → User
    → DirectChats
    → Option (String × String)
    → Option (DirectChats × Option MessagingGroup)
at_address platforms now user chats none = some (chats, none)
at_address platforms now user chats (some (channel_type, handle)) =
    from_cache platforms now user (channel_type, handle) chats
      (cached_group (get_user_dm user.id channel_type chats) chats.central)

abbrev pub of_user :
    Platforms → ℕ → DirectChats → Option User → Option (DirectChats × Option MessagingGroup)
of_user platforms now chats none = some (chats, none)
of_user platforms now chats (some user) =
    at_address platforms now user chats (parse_user_id platforms user)

-- `ensureUserDm`: the chat of a user, or none where the user cannot be reached; the outer `none` is
-- an exception
unfoldable pub ensure_user_dm :
    Platforms → ℕ → String → DirectChats → Option (DirectChats × Option MessagingGroup)
unfolding parse_user_id resolve_dm_platform_id get_user_dm upsert_user_dm create_messaging_group
    get_messaging_group get_messaging_group_by_platform get_user
ensure_user_dm platforms now user_id chats =
    of_user platforms now chats (get_user user_id chats.central)
