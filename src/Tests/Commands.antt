-- ===== src/Tests/Commands.antt =====
-- The theorems of Cli at an agent that lists members and asks to add one.
use mathlib.Core.Option
use clawie.Prelude.{String, ◌≡◌, refl, true, false, none, some, [], ◌∷◌}
use clawie.Json.{Value, Fields, text, array, object, nil, cons, end, field, lookup}
use clawie.Cli.{
  RequestFrame, ok, AgentCaller, CallerContext, from_agent, open_access, approval, scope_group,
  CliHost, CommandDef, Registry, normalize_args, get_resource,
}
use clawie.Cli.Dispatch.{
  dispatch, resolve_command, non_blank, scope_field_of, scope_request, passed, run_command,
  run_resolved,
}
use clawie.Cli.Scope.{dispatch-owned, dispatch-IsWaiting, IsConfined, IsWaiting}
use clawie.Cli.Args.{scope_request-IsWithin, scope_request-spelled_twice, IsWithin, spelled_twice}
use clawie.Tests.{central}

abbrev row : String → String → Value
row user group = object (field "user_id" (text user) (field "agent_group_id" (text group) end))

abbrev members_list : CommandDef
members_list = record {
  name = "members-list";
  access = open_access;
  resource = some "members";
  is_generic = true;
  parse_args = λ (args : Fields). some (normalize_args args);
  handler = λ (args : Fields) (ctx : CallerContext) (host : CliHost). (
    host,
    some (
        some (
          array (
            cons (row "telegram:member" "ag-helper")
              (cons (row "telegram:other" "ag-writer") nil)))),
  );
}

abbrev members_add : CommandDef
members_add = record {
  name = "members-add";
  access = approval;
  resource = some "members";
  is_generic = false;
  parse_args = λ (args : Fields). some (normalize_args args);
  handler = λ (args : Fields) (ctx : CallerContext) (host : CliHost). (host, some none);
}

abbrev registry : Registry
registry = record {
  commands = members_list ∷ members_add ∷ [];
  resources = record { plural = "members"; scope_field = some "agent_group_id" } ∷ [];
}

abbrev caller : AgentCaller
caller = record {
  session_id = "s-helper";
  agent_group_id = "ag-helper";
  messaging_group_id = "mg-family";
}

abbrev cli_host : CliHost
cli_host = record { central = central []; cli_scope = λ id. none; requested = [] }

abbrev frame : String → Fields → RequestFrame
frame command args = record { id = "r1"; command = command; args = args }

abbrev own_rows : Value
own_rows = array (cons (row "telegram:member" "ag-helper") nil)

-- Of the two rows that the handler returns, the agent gets its own.
listed :
    dispatch registry (frame "members-list" end) (from_agent caller) cli_host
    ≡ (cli_host, ok (some own_rows))
unfolding dispatch resolve_command run_resolved scope_request run_command mathlib.Core.Option.bind
    get_resource
listed = refl

list_resolved :
    resolve_command registry (frame "members-list" end)
    ≡ some (members_list, frame "members-list" end)
unfolding resolve_command
list_resolved = refl

dispatch-owned_example :
    (f : String) × (non_blank (scope_field_of registry (some "members")) ≡ some f)
    × IsConfined f "ag-helper" (some own_rows)
dispatch-owned_example =
    dispatch-owned registry (frame "members-list" end) (frame "members-list" end) caller
      members_list cli_host cli_host (some own_rows) list_resolved refl refl listed refl

-- The last segment is the target.
add_resolved :
    resolve_command registry (frame "members-add-u1" end)
    ≡ some (members_add, frame "members-add" (field "id" (text "u1") end))
unfolding resolve_command
add_resolved = refl

dispatch-IsWaiting_example :
    IsWaiting caller cli_host
      (dispatch registry (frame "members-add-u1" end) (from_agent caller) cli_host)
dispatch-IsWaiting_example =
    dispatch-IsWaiting registry (frame "members-add-u1" end)
      (frame "members-add" (field "id" (text "u1") end)) caller members_add cli_host add_resolved
      refl

scope_request-IsWithin_example :
    IsWithin caller members_list
      (scope_request caller scope_group members_list (frame "members-list" end) cli_host)
scope_request-IsWithin_example =
    scope_request-IsWithin caller members_list (frame "members-list" end) cli_host

scope_request-spelled_twice_example :
    (req : RequestFrame) × (scope_request caller scope_group members_add
        (spelled_twice "r1" "members-add" "ag-helper" "ag-writer")
        cli_host
      ≡ passed req)
    × (lookup "agent_group_id" (normalize_args req.args) ≡ some (text "ag-writer"))
scope_request-spelled_twice_example =
    scope_request-spelled_twice caller members_add cli_host "r1" "members-add" "ag-writer" refl
