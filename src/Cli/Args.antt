-- ===== src/Cli/Args.antt =====
-- The arguments that the scope of a group lets through in src/cli/dispatch.ts, and what the
-- handlers of src/cli/crud.ts make of them.
use clawie.Prelude.{
  String, Bool, true, false, not, ◌&&◌, ◌||◌, Option, none, some, is_some, str_eq, if◌then◌else◌,
  ◌≡◌, refl, ap, ◌∙◌, arith, if-intro, str_eq_refl, str_eq_iff,
}
use clawie.Json.{
  Value, Fields, null, boolean, number, text, array, object, end, field, lookup, set_field,
}
use clawie.Cli.{RequestFrame, AgentCaller, scope_group, CliHost, CommandDef, normalize_args}
use clawie.Cli.Dispatch.{
  Scoped, refused, passed, scope_request, fill_args, is_foreign, is_foreign_value,
  is_keyed_by_group, is_scoped_resource, hides_session, or_value, with_default,
}

lookup-set_field :
    (j k : String) (v : Value) (fields : Fields)
    → lookup j (set_field k v fields) ≡ (if str_eq k j then some v else lookup j fields)
lookup-set_field j k v end = refl
lookup-set_field j k v (field name old rest) =
    ground
      (arith, str_eq_iff k j, str_eq_iff name k, str_eq_iff name j, lookup-set_field j k v rest)

own_value : (group : String) → is_foreign_value group (some (text group)) ≡ false
own_value group = rw (str_eq_refl group) (ground arith)

or_value-own :
    (group : String) (v : Option Value)
    → is_foreign_value group v ≡ false
    → is_foreign_value group (some (or_value v (text group))) ≡ false
or_value-own group none h = own_value group
or_value-own group (some null) h = own_value group
or_value-own group (some (boolean b)) h = h
or_value-own group (some (number n)) h = h
or_value-own group (some (text s)) h = h
or_value-own group (some (array xs)) h = h
or_value-own group (some (object fields)) h = h

lookup-with_default :
    (j k : String) (v : Value) (args : Fields)
    → lookup j (with_default k v args)
      ≡ (if str_eq k j then some (or_value (lookup k args) v) else lookup j args)
lookup-with_default j k v args = lookup-set_field j k (or_value (lookup k args) v) args

or_left : (a b : Bool) → (a || b) ≡ false → a ≡ false
or_left a b h = ground arith

or_right : (a b : Bool) → (a || b) ≡ false → b ≡ false
or_right a b h = ground arith

module _ (group : String) (args : Fields) where
  filled : Fields
  filled = with_default "group" (text group) (with_default "agent_group_id" (text group) args)

  lookup-filled_group : lookup "group" filled ≡ some (or_value (lookup "group" args) (text group))
  unfolding filled
  lookup-filled_group =
      lookup-with_default "group" "group" (text group)
        (with_default "agent_group_id" (text group) args)
      ∙ ap (λ v. some (or_value v (text group)))
          (lookup-with_default "group" "agent_group_id" (text group) args)

  lookup-filled_id : (v : Value) → lookup "id" (set_field "id" v filled) ≡ some v
  lookup-filled_id v = lookup-set_field "id" "id" v filled

  lookup-filled_agent_group_id :
      lookup "agent_group_id" filled ≡ some (or_value (lookup "agent_group_id" args) (text group))
  unfolding filled
  lookup-filled_agent_group_id =
      lookup-with_default "agent_group_id" "group" (text group)
        (with_default "agent_group_id" (text group) args)
      ∙ lookup-with_default "agent_group_id" "agent_group_id" (text group) args

  -- the arguments name the group wherever they name one
  abbrev IsOwn : Bool → Fields → Type 0
  IsOwn keyed fields =
      (is_foreign group "agent_group_id" fields ≡ false)
      × (is_foreign group "group" fields ≡ false)
      × ((keyed && is_foreign group "id" fields) ≡ false)

  own_by :
      (fields : Fields) (key : String) (v : Option Value)
      → lookup key fields ≡ some (or_value v (text group))
      → is_foreign_value group v ≡ false
      → is_foreign group key fields ≡ false
  own_by fields key v e h = ap (is_foreign_value group) e ∙ or_value-own group v h

  filled-IsOwn :
      (keyed : Bool)
      → is_foreign group "agent_group_id" args ≡ false
      → is_foreign group "group" args ≡ false
      → (keyed && is_foreign group "id" args) ≡ false
      → IsOwn keyed (
          if keyed
          then set_field "id" (or_value (lookup "id" args) (text group)) filled
          else filled)
  filled-IsOwn true a b c =
      let id = or_value (lookup "id" args) (text group) in
      (
        own_by (set_field "id" id filled) "agent_group_id" (lookup "agent_group_id" args)
            (lookup-set_field "agent_group_id" "id" id filled ∙ lookup-filled_agent_group_id) a,
        own_by (set_field "id" id filled) "group" (lookup "group" args)
            (lookup-set_field "group" "id" id filled ∙ lookup-filled_group) b,
        own_by (set_field "id" id filled) "id" (lookup "id" args) (lookup-filled_id id) c,
      )
  filled-IsOwn false a b c = (
    own_by filled "agent_group_id" (lookup "agent_group_id" args) lookup-filled_agent_group_id a,
    own_by filled "group" (lookup "group" args) lookup-filled_group b,
    refl,
  )

  fill_args-IsOwn :
      (resource : Option String)
      → (is_foreign group "agent_group_id" args || is_foreign group "group" args) ≡ false
      → (is_keyed_by_group resource && is_foreign group "id" args) ≡ false
      → IsOwn (is_keyed_by_group resource) (fill_args group resource args)
  unfolding filled
  fill_args-IsOwn resource own own_id =
      filled-IsOwn (is_keyed_by_group resource) (or_left _ _ own) (or_right _ _ own) own_id

module _ (caller : AgentCaller) (cmd : CommandDef) where
  -- what a frame that the scope lets through may name
  abbrev pub IsWithin : Scoped → Type 0
  IsWithin (refused code) = Unit
  IsWithin (passed req) =
      (is_scoped_resource cmd.resource ≡ true)
      × (is_foreign caller.agent_group_id "agent_group_id" req.args ≡ false)
      × (is_foreign caller.agent_group_id "group" req.args ≡ false)
      × ((is_keyed_by_group cmd.resource && is_foreign caller.agent_group_id "id" req.args) ≡ false)

  -- Whatever the scope of a group lets through is a command of one of the four resources or of none,
  -- and its arguments `agent_group_id` and `group`, and `id` where it is the id of a group, name the
  -- caller's group if they name one.
  pub scope_request-IsWithin :
      (req : RequestFrame) (host : CliHost)
      → IsWithin (scope_request caller scope_group cmd req host)
  unfolding scope_request
  scope_request-IsWithin req host =
      let group = caller.agent_group_id in
      let id_foreign = is_keyed_by_group cmd.resource && is_foreign group "id" req.args in
      if-intro IsWithin (not (is_scoped_resource cmd.resource)) (λ _. tt)
        (λ scoped.
          if-intro IsWithin
            (is_foreign group "agent_group_id" req.args || is_foreign group "group" req.args)
            (λ _. tt)
            (λ own.
              if-intro IsWithin id_foreign (λ _. tt)
                (λ own_id.
                  let kept = fill_args-IsOwn group req.args cmd.resource own own_id in
                  if-intro IsWithin
                    (is_some (lookup "cli_scope" req.args) || is_some (lookup "cli-scope" req.args))
                    (λ _. tt)
                    (λ _.
                      if-intro IsWithin
                        (hides_session group cmd
                          (record req { args = fill_args group cmd.resource req.args }) host)
                        (λ _. tt) (λ _. (ground (arith, scoped), kept.0, kept.1, kept.2))))))

-- a frame that gives the group twice, in the two spellings that the handlers take for one
abbrev pub spelled_twice : String → String → String → String → RequestFrame
spelled_twice id command own other = record {
  id = id;
  command = command;
  args = field "agent_group_id" (text own) (field "agent-group-id" (text other) end);
}

-- The check is made before the spellings are joined: a frame for `members` that gives the caller's
-- group as agent_group_id, and then any other group as agent-group-id, passes the scope of a group,
-- and the handler gets the other group.
pub scope_request-spelled_twice :
    (caller : AgentCaller) (cmd : CommandDef) (host : CliHost) (id command other : String)
    → cmd.resource ≡ some "members"
    → (req : RequestFrame) × (scope_request caller scope_group cmd
          (spelled_twice id command caller.agent_group_id other)
          host
        ≡ passed req)
      × (lookup "agent_group_id" (normalize_args req.args) ≡ some (text other))
unfolding scope_request hides_session normalize_args
scope_request-spelled_twice caller cmd host id command other members = (
  record (spelled_twice id command caller.agent_group_id other) {
    args =
        fill_args caller.agent_group_id (some "members")
          (spelled_twice id command caller.agent_group_id other).args;
  },
  rw (members, str_eq_refl caller.agent_group_id) (ground arith),
  refl,
)
