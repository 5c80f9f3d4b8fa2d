-- ===== src/Cli/Scope.antt =====
-- What the dispatcher of src/cli/dispatch.ts keeps from an agent: other groups' rows, and the
-- commands that an admin has to approve.
use mathlib.Core.Path.{subst}
use clawie.Prelude.{
  String, true, Option, none, some, [], ◌∷◌, ◌++◌, is_some, str_eq, ◌≡◌, refl, sym, ap, ◌⊎◌, inl,
  inr, All, if-intro, Bool-cases, str_eq_iff, false≢true, ◌∙◌, find-holds,
}
use clawie.Json.{Value, Items, Fields, null, boolean, number, text, array, object, nil, cons, items}
use clawie.Central.{get_session, Session}
use clawie.Cli.{
  RequestFrame, Response, ok, err, AgentCaller, from_agent, CliHost, CommandDef, Registry,
  PendingCommand, forbidden,
}
use clawie.Cli.Dispatch.{
  is_owned, filter_items, confine, scope_response, run_command, Scoped, refused, passed, run_scoped,
  run_as, dispatch, resolve_command, scope_of, is_group, non_blank, scope_field_of, needs_approval,
  scope_request, ask_approval, finish, run_parsed, request_command, run_resolved,
}

-- the rows of a response belong to the group
abbrev pub IsConfined : String → String → Option Value → Type 0
IsConfined scope_field group (some (array rows)) =
    All (λ row. is_owned scope_field group row ≡ true) (items rows)
IsConfined scope_field group (some (object fields)) =
    is_owned scope_field group (object fields) ≡ true
IsConfined scope_field group value = Unit

filter_items-owned :
    (scope_field group : String) (rows : Items)
    → All
        (λ row. is_owned scope_field group row ≡ true)
        (items (filter_items (is_owned scope_field group) rows))
filter_items-owned scope_field group nil = tt
filter_items-owned scope_field group (cons x xs) =
    if-intro (λ rows. All (λ row. is_owned scope_field group row ≡ true) (items rows))
      (is_owned scope_field group x) (λ e. (e, filter_items-owned scope_field group xs))
      (λ _. filter_items-owned scope_field group xs)

module _ (r : Registry) (caller : AgentCaller) (cmd : CommandDef) where
  -- What a response shows, where the caller's scope is its group after the handler.
  abbrev Shows : CliHost → Response → Type 0
  Shows after (err code) = Unit
  Shows after (ok value) =
      is_group (scope_of caller after) ≡ true
      → (f : String) × (non_blank (scope_field_of r cmd.resource) ≡ some f)
        × IsConfined f caller.agent_group_id value

  confine-Shows :
      (after : CliHost) (f : String) (value : Option Value)
      → non_blank (scope_field_of r cmd.resource) ≡ some f
      → Shows after (confine f caller.agent_group_id value)
  unfolding confine
  confine-Shows after f (some (array rows)) e =
      λ _. (f, e, filter_items-owned f caller.agent_group_id rows)
  confine-Shows after f (some (object fields)) e =
      if-intro (Shows after) (is_owned f caller.agent_group_id (object fields))
        (λ owned _. (f, e, owned)) (λ _. tt)
  confine-Shows after f none e = λ _. (f, e, tt)
  confine-Shows after f (some null) e = λ _. (f, e, tt)
  confine-Shows after f (some (boolean b)) e = λ _. (f, e, tt)
  confine-Shows after f (some (number n)) e = λ _. (f, e, tt)
  confine-Shows after f (some (text s)) e = λ _. (f, e, tt)

  module _ (generic : cmd.is_generic ≡ true) (named : is_some (non_blank cmd.resource) ≡ true) where
    enforced-Shows :
        (after : CliHost) (value : Option Value) (field_of : Option String)
        → non_blank (scope_field_of r cmd.resource) ≡ field_of
        → Shows after (elim field_of [
          | none ↦ err forbidden
          | some scope_field ↦ confine scope_field caller.agent_group_id value
        ])
    enforced-Shows after value none e = tt
    enforced-Shows after value (some f) e = confine-Shows after f value e

    scope_response-Shows :
        (after : CliHost) (value : Option Value)
        → Shows after (scope_response r caller cmd after value)
    unfolding scope_response
    scope_response-Shows after value = elim (Bool-cases (is_group (scope_of caller after))) [
      | inl e ↦
          rw (scope_response, generic, named, e)
            (enforced-Shows after value (non_blank (scope_field_of r cmd.resource)) refl)
      | inr e ↦ rw (scope_response, generic, named, e) (λ e'. absurd (false≢true (sym e ∙ e')))
    ]

    abbrev Guarded : CliHost × Response → Type 0
    Guarded (after, response) = Shows after response

    finish-Guarded :
        (result : CliHost × Option (Option Value))
        → Guarded (finish r (from_agent caller) cmd result)
    unfolding finish
    finish-Guarded (after, none) = tt
    finish-Guarded (after, some value) = scope_response-Shows after value

    run_parsed-Guarded :
        (args : Option Fields) (host : CliHost)
        → Guarded (run_parsed r (from_agent caller) cmd args host)
    unfolding run_parsed
    run_parsed-Guarded none host = tt
    run_parsed-Guarded (some args) host = finish-Guarded (cmd.handler args (from_agent caller) host)

    request_command-Guarded :
        (session : Option Session) (req : RequestFrame) (host : CliHost)
        → Guarded (request_command session req host)
    unfolding request_command
    request_command-Guarded none req host = tt
    request_command-Guarded (some session) req host = tt

    run_scoped-Guarded : (s : Scoped) (host : CliHost) → Guarded (run_scoped r caller cmd s host)
    unfolding run_scoped run_command ask_approval
    run_scoped-Guarded (refused code) host = tt
    run_scoped-Guarded (passed req) host =
        if-intro Guarded (needs_approval cmd.access)
          (λ _. request_command-Guarded (get_session caller.session_id host.central) req host)
          (λ _. run_parsed-Guarded (cmd.parse_args req.args) host)

-- What an agent gets from a list or a get belongs to its group: where the group's scope is the
-- group after the handler, the resource has a field that names the group, and every row of the data
-- has the caller's group in that field, whatever the handler returned.
pub dispatch-owned :
    (r : Registry) (req resolved : RequestFrame) (caller : AgentCaller) (cmd : CommandDef)
    (host after : CliHost) (value : Option Value)
    → resolve_command r req ≡ some (cmd, resolved)
    → cmd.is_generic ≡ true
    → is_some (non_blank cmd.resource) ≡ true
    → dispatch r req (from_agent caller) host ≡ (after, ok value)
    → is_group (scope_of caller after) ≡ true
    → (f : String) × (non_blank (scope_field_of r cmd.resource) ≡ some f)
      × IsConfined f caller.agent_group_id value
unfolding dispatch run_resolved run_as
dispatch-owned r req resolved caller cmd host after value e generic named e' scoped =
    subst (Guarded r caller cmd generic named)
      (sym (ap (λ o. run_resolved r (from_agent caller) o host) e) ∙ e')
      (run_scoped-Guarded r caller cmd generic named
        (scope_request caller (scope_of caller host) cmd resolved host) host)
      scoped

-- the outcome of a command that waits for an admin: nothing is written but the request
abbrev pub IsWaiting : AgentCaller → CliHost → CliHost × Response → Type 0
IsWaiting caller host (after, ok value) = ⊥
IsWaiting caller host (after, err code) =
    (after ≡ host)
    ⊎ ((p : PendingCommand) × (after ≡ record host { requested = host.requested ++ p ∷ [] })
        × (p.session_id ≡ caller.session_id))

request_command-IsWaiting :
    (caller : AgentCaller) (session : Option Session) (req : RequestFrame) (host : CliHost)
    → get_session caller.session_id host.central ≡ session
    → IsWaiting caller host (request_command session req host)
unfolding request_command get_session
request_command-IsWaiting caller none req host e = inl refl
request_command-IsWaiting caller (some session) req host e = inr (
  record { session_id = session.id; frame = req },
  refl,
  (str_eq_iff session.id caller.session_id).0
      (find-holds (λ (s : Session). str_eq s.id caller.session_id) host.central.sessions e),
)

run_scoped-IsWaiting :
    (r : Registry) (caller : AgentCaller) (cmd : CommandDef) (s : Scoped) (host : CliHost)
    → needs_approval cmd.access ≡ true
    → IsWaiting caller host (run_scoped r caller cmd s host)
unfolding run_scoped ask_approval
run_scoped-IsWaiting r caller cmd (refused code) host waits = inl refl
run_scoped-IsWaiting r caller cmd (passed req) host waits =
    rw waits
      (request_command-IsWaiting caller (get_session caller.session_id host.central) req host refl)

-- A command that needs an approval never runs for an agent: its frame is answered by an error, and
-- the host is as it was but for one request for an approval, by the caller's session.
pub dispatch-IsWaiting :
    (r : Registry) (req resolved : RequestFrame) (caller : AgentCaller) (cmd : CommandDef)
    (host : CliHost)
    → resolve_command r req ≡ some (cmd, resolved)
    → needs_approval cmd.access ≡ true
    → IsWaiting caller host (dispatch r req (from_agent caller) host)
unfolding dispatch run_resolved run_as
dispatch-IsWaiting r req resolved caller cmd host e waits =
    subst (IsWaiting caller host) (sym (ap (λ o. run_resolved r (from_agent caller) o host) e)) (
      run_scoped-IsWaiting r caller cmd
        (scope_request caller (scope_of caller host) cmd resolved host) host waits)
