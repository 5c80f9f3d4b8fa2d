-- ===== src/Permissions/Gates/Senders.antt =====
-- The sender resolver of src/modules/permissions/index.ts.
use Prim.Native.Char.{code}
use Prim.Native.String.{[] as empty, ◌∷◌ as str_cons, ◌++◌ as str_append}
use clawie.Prelude.{
  ℕ, String, Bool, true, false, Option, none, some, if◌then◌else◌, ◌==◌, str_eq, is_some,
}
use clawie.Json.{json, plain, Value, null, get, as_string}
use clawie.Inbound.{InboundEvent}
use clawie.Central.{CentralDb}
use clawie.Permissions.{get_user, upsert_user}

-- `id.includes(':')`
unfoldable pub has_colon : String → Bool
has_colon empty = false
has_colon (str_cons c s) = let rest = has_colon s in if code c == 58 then true else rest

-- a platform's handle as a user id: `${channelType}:${handle}`
unfoldable pub namespaced : String → String → String
unfolding has_colon
namespaced channel_type handle =
    if has_colon handle then handle else str_append channel_type (str_append ":" handle)

-- `a ?? b`
abbrev pub coalesce : Option String → Option String → Option String
coalesce none b = b
coalesce (some a) b = some a

-- `author?.key` where `author` is an object
abbrev pub author_field : String → Value → Option String
author_field key content = elim (get "author" content) [
  | none ↦ none
  | some author ↦ as_string (get key author)
]

unfoldable pub raw_handle : Value → Option String
raw_handle content =
    coalesce (as_string (get "senderId" content))
      (coalesce (as_string (get "sender" content)) (author_field "userId" content))

unfoldable pub sender_display : Value → Option String
sender_display content =
    coalesce (as_string (get "senderName" content))
      (coalesce (author_field "fullName" content) (author_field "userName" content))

-- the user is written on first sight
unfoldable pub ensure_user : ℕ → String → String → Option String → CentralDb → CentralDb
ensure_user now id kind display_name db =
    if is_some (get_user id db)
    then db
    else upsert_user
        (record { id = id; kind = kind; display_name = display_name; created_at = now }) db

-- `extractAndUpsertUser`; the outer `none` is the exception on a content that is null
unfoldable pub extract_and_upsert_user :
    ℕ → InboundEvent → CentralDb → Option (CentralDb × Option String)
extract_and_upsert_user now event db = elim event.content [
  | plain raw ↦ some (db, none)
  | json null ↦ none
  | json content ↦ elim (raw_handle content) [
    | none ↦ some (db, none)
    | some handle ↦
        let user_id = namespaced event.channel_type handle in
        if str_eq handle ""
        then some (db, none)
        else some
            (ensure_user now user_id event.channel_type (sender_display content) db, some user_id)
  ]
]
