-- ===== src/Cli/Dispatch.antt =====
-- src/cli/dispatch.ts: which command a frame names, what the scope of its caller lets through,
-- and when it waits for an approval. An id that is not a text finds no session.
use Prim.Native.Char.{code}
use mathlib.Core.Option as Option
use clawie.Prelude.{
  String, Bool, true, false, not, ◌&&◌, ◌||◌, Option, none, some, List, [], ◌∷◌, ◌++◌, or_else,
  is_some, is_one_of, str_eq, sql_eq, if◌then◌else◌, ◌==◌,
}
use clawie.Json.{
  Value, Items, Fields, null, text, array, object, nil, cons, lookup, get, as_string, truthy,
  set_field,
}
use clawie.Central.{Session, get_session}
use clawie.Cli.{
  RequestFrame, ErrorCode, unknown_command, invalid_args, forbidden, approval_pending,
  handler_error, Response, ok, err, AgentCaller, CallerContext, from_host, from_portal, from_agent,
  Access, approval, CliScope, scope_disabled, scope_group, scope_global, CliHost, CommandDef,
  Registry, lookup_command, get_resource, ResourceDef,
}

-- `v ?? d`
abbrev pub or_value : Option Value → Value → Value
or_value none d = d
or_value (some null) d = d
or_value (some v) d = v

-- { ...args, [key]: args[key] ?? value }
abbrev pub with_default : String → Value → Fields → Fields
with_default key value args = set_field key (or_value (lookup key args) value) args

-- the text before the last dash and the text after it
unfoldable pub split_last : String → Option (String × String)
split_last String.[] = none
split_last (String.◌∷◌ c s) = elim (split_last s) [
  | some (before, after) ↦ some (String.◌∷◌ c before, after)
  | none ↦ if code c == b'-' then some ("", s) else none
]

abbrev pub with_target : RequestFrame → String → String → RequestFrame
with_target req shortened tail = record req {
  command = shortened;
  args = with_default "id" (text tail) req.args;
}

-- the command of a frame, its last segment being the target where the whole is no command
unfoldable pub resolve_command : Registry → RequestFrame → Option (CommandDef × RequestFrame)
unfolding lookup_command split_last
resolve_command r req = elim (lookup_command req.command r) [
  | some cmd ↦ some (cmd, req)
  | none ↦ elim (split_last req.command) [
    | none ↦ none
    | some (shortened, tail) ↦
        if str_eq shortened ""
        then none
        else Option.map (λ (cmd : CommandDef). (cmd, with_target req shortened tail))
            (lookup_command shortened r)
  ]
]

-- configRow?.cli_scope ?? 'group'
abbrev pub scope_of : AgentCaller → CliHost → CliScope
scope_of caller host = or_else (host.cli_scope caller.agent_group_id) scope_group

abbrev pub is_group : CliScope → Bool
is_group scope_group = true
is_group _ = false

abbrev pub whitelist : List String
whitelist = "groups" ∷ "sessions" ∷ "destinations" ∷ "members" ∷ []

abbrev pub is_scoped_resource : Option String → Bool
is_scoped_resource none = true
is_scoped_resource (some resource) = str_eq resource "" || is_one_of whitelist resource

-- the resources whose --id is the agent group
abbrev pub is_keyed_by_group : Option String → Bool
is_keyed_by_group resource = sql_eq resource "groups" || sql_eq resource "destinations"

-- an argument that names another group
abbrev pub is_foreign_value : String → Option Value → Bool
is_foreign_value group v = truthy v && not (sql_eq (as_string v) group)

abbrev pub is_foreign : String → String → Fields → Bool
is_foreign group key args = is_foreign_value group (lookup key args)

abbrev pub fill_args : String → Option String → Fields → Fields
fill_args group resource args =
    let filled =
      with_default "group" (text group) (with_default "agent_group_id" (text group) args) in
    if is_keyed_by_group resource
    then set_field "id" (or_value (lookup "id" args) (text group)) filled
    else filled

abbrev pub is_session_of_group : String → Option Session → Bool
is_session_of_group group none = false
is_session_of_group group (some s) = str_eq s.agent_group_id group

-- whether `sessions-get` is asked for a session that is not the caller's
unfoldable pub hides_session : String → CommandDef → RequestFrame → CliHost → Bool
unfolding get_session
hides_session group cmd req host =
    let id = lookup "id" req.args in
    sql_eq cmd.resource "sessions"
    && str_eq req.command "sessions-get"
    && truthy id
    && not
        (is_session_of_group group (Option.bind (as_string id) (λ s. get_session s host.central)))

pub data Scoped : Type 0 where
  refused : ErrorCode → Scoped
  passed : RequestFrame → Scoped

-- the checks of a scope, with the arguments that they fill in
unfoldable pub scope_request : AgentCaller → CliScope → CommandDef → RequestFrame → CliHost → Scoped
unfolding hides_session
scope_request caller scope_disabled cmd req host = refused forbidden
scope_request caller scope_global cmd req host = passed req
scope_request caller scope_group cmd req host =
    let group = caller.agent_group_id in
    let filled : RequestFrame = record req { args = fill_args group cmd.resource req.args } in
    if not (is_scoped_resource cmd.resource)
    then refused forbidden
    else if is_foreign group "agent_group_id" req.args || is_foreign group "group" req.args
    then refused forbidden
    else if is_keyed_by_group cmd.resource && is_foreign group "id" req.args
    then refused forbidden
    else if is_some (lookup "cli_scope" req.args) || is_some (lookup "cli-scope" req.args)
    then refused forbidden
    else if hides_session group cmd filled host
    then refused handler_error
    else passed filled

-- row[groupField] === ctx.agentGroupId, on an object
abbrev pub is_owned : String → String → Value → Bool
is_owned scope_field group row = sql_eq (as_string (get scope_field row)) group

abbrev pub filter_items : (Value → Bool) → Items → Items
filter_items p nil = nil
filter_items p (cons x xs) = let rest = filter_items p xs in if p x then cons x rest else rest

-- what a list or a get may return to the caller's group
unfoldable pub confine : String → String → Option Value → Response
confine scope_field group (some (array rows)) =
    ok (some (array (filter_items (is_owned scope_field group) rows)))
confine scope_field group (some (object fields)) =
    if is_owned scope_field group (object fields) then ok (some (object fields)) else err forbidden
confine scope_field group value = ok value

abbrev pub scope_field_of : Registry → Option String → Option String
scope_field_of r none = none
scope_field_of r (some resource) =
    Option.bind (get_resource resource r) (λ (d : ResourceDef). d.scope_field)

-- `cmd.resource && …`, `if (!groupField)`: the empty text counts as none
abbrev pub non_blank : Option String → Option String
non_blank none = none
non_blank (some s) = if str_eq s "" then none else some s

-- the enforcement after the handler
unfoldable pub scope_response :
    Registry → AgentCaller → CommandDef → CliHost → Option Value → Response
unfolding confine
scope_response r caller cmd host value =
    if cmd.is_generic && is_some (non_blank cmd.resource) && is_group (scope_of caller host)
    then elim (non_blank (scope_field_of r cmd.resource)) [
      | none ↦ err forbidden
      | some scope_field ↦ confine scope_field caller.agent_group_id value
    ]
    else ok value

abbrev pub respond : Registry → CallerContext → CommandDef → CliHost → Option Value → Response
respond r from_host cmd host value = ok value
respond r from_portal cmd host value = ok value
respond r (from_agent caller) cmd host value = scope_response r caller cmd host value

-- a throw of the handler keeps what it wrote
unfoldable pub finish :
    Registry → CallerContext → CommandDef → CliHost × Option (Option Value) → CliHost × Response
unfolding scope_response
finish r ctx cmd (after, none) = (after, err handler_error)
finish r ctx cmd (after, some value) = (after, respond r ctx cmd after value)

unfoldable pub run_parsed :
    Registry → CallerContext → CommandDef → Option Fields → CliHost → CliHost × Response
unfolding finish
run_parsed r ctx cmd none host = (host, err invalid_args)
run_parsed r ctx cmd (some args) host = finish r ctx cmd (cmd.handler args ctx host)

-- the handler with its checks after it
unfoldable pub run_command :
    Registry → CallerContext → CommandDef → RequestFrame → CliHost → CliHost × Response
unfolding run_parsed
run_command r ctx cmd req host = run_parsed r ctx cmd (cmd.parse_args req.args) host

abbrev pub needs_approval : Access → Bool
needs_approval approval = true
needs_approval _ = false

-- requestApproval({ session, payload: { frame }, … })
unfoldable pub request_command : Option Session → RequestFrame → CliHost → CliHost × Response
request_command none req host = (host, err handler_error)
request_command (some session) req host = (
  record host {
    requested = host.requested ++ record { session_id = session.id; frame = req } ∷ [];
  },
  err approval_pending,
)

-- an agent's command that waits for an admin
unfoldable pub ask_approval : AgentCaller → RequestFrame → CliHost → CliHost × Response
unfolding get_session request_command
ask_approval caller req host = request_command (get_session caller.session_id host.central) req host

unfoldable pub run_scoped :
    Registry → AgentCaller → CommandDef → Scoped → CliHost → CliHost × Response
unfolding ask_approval run_command
run_scoped r caller cmd (refused code) host = (host, err code)
run_scoped r caller cmd (passed req) host =
    if needs_approval cmd.access
    then ask_approval caller req host
    else run_command r (from_agent caller) cmd req host

unfoldable pub run_as :
    Registry → CallerContext → CommandDef → RequestFrame → CliHost → CliHost × Response
unfolding run_scoped run_command scope_request
run_as r from_host cmd req host = run_command r from_host cmd req host
run_as r from_portal cmd req host = run_command r from_portal cmd req host
run_as r (from_agent caller) cmd req host =
    run_scoped r caller cmd (scope_request caller (scope_of caller host) cmd req host) host

unfoldable pub run_resolved :
    Registry → CallerContext → Option (CommandDef × RequestFrame) → CliHost → CliHost × Response
unfolding run_as
run_resolved r ctx none host = (host, err unknown_command)
run_resolved r ctx (some (cmd, req)) host = run_as r ctx cmd req host

unfoldable pub dispatch : Registry → RequestFrame → CallerContext → CliHost → CliHost × Response
unfolding resolve_command run_resolved
dispatch r req ctx host = run_resolved r ctx (resolve_command r req) host
