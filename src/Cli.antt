-- ===== src/Cli.antt =====
-- The command line of the host and of the agents: the frames and the registry of src/cli/frame.ts,
-- src/cli/registry.ts and src/cli/crud.ts. The texts of errors are left out.
pub mod Dispatch
pub mod Scope
pub mod Args
use Prim.Native.Char.{Char, code}
use Prim.Native.String
use clawie.Prelude.{
  String, Bool, true, false, Option, none, some, List, [], ◌∷◌, ◌++◌, find, exists, str_eq,
  if◌then◌else◌, ◌==◌,
}
use clawie.Json.{Value, Fields, end, field, set_field}
use clawie.Central.{CentralDb}

pub record RequestFrame : Type 0 where
  pub id : String
  pub command : String
  pub args : Fields

pub data ErrorCode : Type 0 where
  unknown_command invalid_args permission_denied forbidden : ErrorCode
  approval_pending not_found handler_error transport_error : ErrorCode

-- `ok` has the data, where `none` is `undefined`
pub data Response : Type 0 where
  ok : Option Value → Response
  err : ErrorCode → Response

pub record AgentCaller : Type 0 where
  pub session_id : String
  pub agent_group_id : String
  pub messaging_group_id : String

pub data CallerContext : Type 0 where
  from_host : CallerContext
  from_portal : CallerContext
  from_agent : AgentCaller → CallerContext

pub data Access : Type 0 where
  open_access approval hidden : Access

-- container_configs.cli_scope
pub data CliScope : Type 0 where
  scope_disabled scope_group scope_global : CliScope

-- What is asked of an admin: the payload of an approval with the action `cli_command`.
pub record PendingCommand : Type 0 where
  pub session_id : String
  pub frame : RequestFrame

-- What the commands read and write: the central database, the rows of `container_configs`, and the
-- approvals requested.
pub record CliHost : Type 0 where
  pub central : CentralDb
  pub cli_scope : String → Option CliScope
  pub requested : List PendingCommand

-- `none` is an exception of a handler
pub record CommandDef : Type 0 where
  pub name : String
  pub access : Access
  pub resource : Option String
  pub is_generic : Bool
  pub parse_args : Fields → Option Fields
  pub handler : Fields → CallerContext → CliHost → CliHost × Option (Option Value)

-- the map of resources, as far as the dispatcher reads it
pub record ResourceDef : Type 0 where
  pub plural : String
  pub scope_field : Option String

pub record Registry : Type 0 where
  pub commands : List CommandDef
  pub resources : List ResourceDef

-- `none` is the error of a name that is taken
unfoldable pub register : CommandDef → Registry → Option Registry
register def r =
    if exists (λ (c : CommandDef). str_eq c.name def.name) r.commands
    then none
    else some (record r { commands = r.commands ++ def ∷ [] })

unfoldable pub lookup_command : String → Registry → Option CommandDef
lookup_command name r = find (λ (c : CommandDef). str_eq c.name name) r.commands

unfoldable pub get_resource : String → Registry → Option ResourceDef
get_resource plural r = find (λ (d : ResourceDef). str_eq d.plural plural) r.resources

abbrev dash : Char
dash = "-"

abbrev underscore : Char
underscore = "_"

-- k.replace(/-/g, '_')
unfoldable pub underscored : String → String
underscored String.[] = ""
underscored (String.◌∷◌ c s) =
    String.◌∷◌ (if code c == code dash then underscore else c) (underscored s)

-- the loop of `normalizeArgs`
unfoldable pub normalize_into : Fields → Fields → Fields
unfolding underscored
normalize_into out end = out
normalize_into out (field k v rest) = normalize_into (set_field (underscored k) v out) rest

unfoldable pub normalize_args : Fields → Fields
unfolding normalize_into
normalize_args raw = normalize_into end raw
