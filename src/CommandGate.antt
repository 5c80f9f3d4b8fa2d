-- ===== src/CommandGate.antt =====
-- src/command-gate.ts: slash commands are classified before they reach a container.
pub mod Admin
use Prim.Native.Char.{Char, code}
use Prim.Native.String.{[] as empty, ◌∷◌ as str_cons}
use clawie.Prelude.{
  ℕ, String, Bool, true, false, not, ◌&&◌, ◌||◌, Option, none, some, List, [], ◌∷◌, if◌then◌else◌,
  leb, ◌==◌, str_eq, sql_eq, is_one_of, is_some, exists, or_else,
}
use clawie.Json.{Content, json, plain, get, as_string}
use clawie.Central.{CentralDb, UserRole, owner, admin, is_role}
use clawie.Central.Names.{to_lower}

pub data GateResult : Type 0 where
  pass filter : GateResult
  deny : String → GateResult

abbrev pub filtered_commands : List String
filtered_commands = "/help" ∷ "/login" ∷ "/logout" ∷ "/doctor" ∷ "/config" ∷ "/remote-control" ∷ []

abbrev pub admin_commands : List String
admin_commands = "/clear" ∷ "/compact" ∷ "/context" ∷ "/cost" ∷ "/files" ∷ "/upload-trace" ∷ []

-- the characters of `\s`, which are those that `trim` removes
abbrev pub is_space : Char → Bool
is_space c =
    leb 9 (code c) && leb (code c) 13
    || code c == 32
    || code c == 160
    || code c == 5760
    || leb 8192 (code c) && leb (code c) 8202
    || code c == 8232
    || code c == 8233
    || code c == 8239
    || code c == 8287
    || code c == 12288
    || code c == 65279

unfoldable pub trim_start : String → String
trim_start empty = empty
trim_start (str_cons c s) = let rest = trim_start s in if is_space c then rest else str_cons c s

unfoldable pub trim_end : String → String
trim_end empty = empty
trim_end (str_cons c s) =
    let rest = trim_end s in if is_space c && str_eq rest "" then empty else str_cons c rest

-- .split(/\s/)[0]
unfoldable pub first_word : String → String
first_word empty = empty
first_word (str_cons c s) = let rest = first_word s in if is_space c then empty else str_cons c rest

abbrev pub starts_with_slash : String → Bool
starts_with_slash empty = false
starts_with_slash (str_cons c s) = code c == 47

-- Where `text` is no string the source falls back on the JSON text itself, which does not start
-- with a slash: it passes, as the empty text does.
unfoldable pub message_text : Content → String
unfolding trim_start trim_end
message_text (plain raw) = trim_end (trim_start raw)
message_text (json content) = trim_end (trim_start (or_else (as_string (get "text" content)) ""))

-- no letter outside of ASCII has a lower case in the name of a command
unfoldable pub command_of : Content → String
unfolding message_text first_word
command_of content = to_lower (first_word (message_text content))

-- WHERE user_id = ? AND (role = 'owner' OR role = 'admin') AND (agent_group_id IS NULL OR = ?)
abbrev pub administers : String → String → UserRole → Bool
administers user_id agent_group_id r =
    str_eq r.user_id user_id
    && (is_role owner r.role || is_role admin r.role)
    && (not (is_some r.agent_group_id) || sql_eq r.agent_group_id agent_group_id)

-- without the permissions module's table everyone is an admin
unfoldable pub is_admin : Option String → String → CentralDb → Bool
is_admin none agent_group_id db = false
is_admin (some user_id) agent_group_id db =
    if str_eq user_id "" then false else elim db.user_roles [
      | none ↦ true
      | some rows ↦ exists (administers user_id agent_group_id) rows
    ]

unfoldable pub gate_command : Content → Option String → String → CentralDb → GateResult
unfolding command_of is_admin
gate_command content user_id agent_group_id db =
    let command = command_of content in
    if not (starts_with_slash (message_text content))
    then pass
    else if is_one_of filtered_commands command
    then filter
    else if is_one_of admin_commands command
    then (if is_admin user_id agent_group_id db then pass else deny command)
    else pass
