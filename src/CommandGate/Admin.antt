-- ===== src/CommandGate/Admin.antt =====
-- Whose admin commands pass, and that the command gate and the permissions module agree on it.
use clawie.Prelude.{
  String, ◌≡◌, refl, sym, ◌∙◌, Bool, true, false, not, ◌&&◌, ◌||◌, Option, none, some, List, [],
  ◌∷◌, inl, inr, arith, if◌then◌else◌, is_some, is_one_of, exists, str_eq, sql_eq, opt_eq, All,
  or_else, false≢true, Option-cases, ap,
}
use mathlib.Core.Path.{subst}
use clawie.Json.{Content}
use clawie.Central.{CentralDb, UserRole, UserRoleKind, owner, admin, is_role}
use clawie.Permissions.{
  roles, has_key, is_owner, is_global_admin, is_admin_of_agent_group, has_admin_privilege,
}
use clawie.CommandGate.{
  GateResult, pass, filter, deny, admin_commands, filtered_commands, command_of, message_text,
  starts_with_slash, administers, is_admin, gate_command,
}

-- An owner's role is not bound to an agent group.
abbrev pub IsGlobalOwner : UserRole → Type 0
IsGlobalOwner r = is_role owner r.role ≡ true → is_some r.agent_group_id ≡ false

same_row :
    (user_id agent_group_id : String) (r : UserRole)
    → IsGlobalOwner r
    → administers user_id agent_group_id r ≡ (
        (has_key user_id owner none r || has_key user_id admin none r)
        || has_key user_id admin (some agent_group_id) r)
same_row user_id agent_group_id r wf = by_role r.role r.agent_group_id wf
  where
    by_role :
        (role : UserRoleKind) (group : Option String)
        → (is_role owner role ≡ true → is_some group ≡ false)
        → (str_eq r.user_id user_id
            && (is_role owner role || is_role admin role)
            && (not (is_some group) || sql_eq group agent_group_id))
          ≡ ((str_eq r.user_id user_id && is_role owner role && opt_eq group none
                || str_eq r.user_id user_id && is_role admin role && opt_eq group none)
              || str_eq r.user_id user_id
                && is_role admin role
                && opt_eq group (some agent_group_id))
    by_role owner none wf = ground arith
    by_role owner (some g) wf = absurd (false≢true (sym (wf refl)))
    by_role admin none wf = ground arith
    by_role admin (some g) wf = ground arith

split_exists :
    (p q r s : UserRole → Bool) (rows : List UserRole)
    → All (λ x. p x ≡ ((q x || r x) || s x)) rows
    → exists p rows ≡ ((exists q rows || exists r rows) || exists s rows)
split_exists p q r s [] h = refl
split_exists p q r s (x ∷ rows) h = ground (arith, h.0, split_exists p q r s rows h.1)

rows_same :
    (user_id agent_group_id : String) (rows : List UserRole)
    → All IsGlobalOwner rows
    → All
        (λ (r : UserRole). administers user_id agent_group_id r ≡ (
          (has_key user_id owner none r || has_key user_id admin none r)
          || has_key user_id admin (some agent_group_id) r))
        rows
rows_same user_id agent_group_id [] h = tt
rows_same user_id agent_group_id (r ∷ rows) h =
    (same_row user_id agent_group_id r h.0, rows_same user_id agent_group_id rows h.1)

-- Where roles are kept and no owner is bound to an agent group, the command gate's own query for
-- an admin gives what the permissions module's three queries give.
pub is_admin_lem :
    (user_id agent_group_id : String) (db : CentralDb)
    → is_some db.user_roles ≡ true
    → str_eq user_id "" ≡ false
    → All IsGlobalOwner (roles db)
    → is_admin (some user_id) agent_group_id db ≡ has_admin_privilege user_id agent_group_id db
unfolding is_admin has_admin_privilege is_owner is_global_admin is_admin_of_agent_group
is_admin_lem user_id agent_group_id db kept named global = elim (Option-cases db.user_roles) [
  | inl e ↦ absurd (false≢true (sym (ap is_some e) ∙ kept))
  | inr (rows, e) ↦
      rw (e, named)
        (split_exists (administers user_id agent_group_id) (has_key user_id owner none)
          (has_key user_id admin none) (has_key user_id admin (some agent_group_id)) rows
          (rows_same user_id agent_group_id rows
            (subst (λ (o : Option (List UserRole)). All IsGlobalOwner (or_else o [])) e global)))
]

decided :
    (slash filtered listed able : Bool) (command : String)
    → let result : GateResult =
        if not slash
        then pass
        else if filtered
        then filter
        else if listed
        then (if able then pass else deny command)
        else pass in
      (result ≡ pass → slash ≡ true → listed ≡ true → able ≡ true)
      × ((c : String) → result ≡ deny c → (c ≡ command) × (listed ≡ true) × (able ≡ false))
decided slash filtered listed able command = ground arith

-- A message that is let through and starts with an admin command is from an admin; one that is
-- denied is an admin command of someone else, and the answer names the command.
pub gate_command-admin :
    (content : Content) (user_id : Option String) (agent_group_id : String) (db : CentralDb)
    → (gate_command content user_id agent_group_id db ≡ pass
        → starts_with_slash (message_text content) ≡ true
        → is_one_of admin_commands (command_of content) ≡ true
        → is_admin user_id agent_group_id db ≡ true)
      × ((command : String)
          → gate_command content user_id agent_group_id db ≡ deny command
          → (command ≡ command_of content)
            × (is_one_of admin_commands command ≡ true)
            × (is_admin user_id agent_group_id db ≡ false))
unfolding gate_command
gate_command-admin content user_id agent_group_id db =
    let (passed, denied) =
      decided (starts_with_slash (message_text content))
        (is_one_of filtered_commands (command_of content))
        (is_one_of admin_commands (command_of content)) (is_admin user_id agent_group_id db)
        (command_of content) in
    (
      passed,
      λ command e. let (same, listed, other) = denied command e in (same, rw same listed, other),
    )
