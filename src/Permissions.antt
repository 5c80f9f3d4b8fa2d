-- ===== src/Permissions.antt =====
-- src/modules/permissions/db/user-roles.ts, agent-group-members.ts and users.ts,
-- src/modules/permissions/access.ts, and `pickApprover` of src/modules/approvals/primitive.ts: who
-- may talk to an agent group, and who administers it.
pub mod Access
pub mod Approvers
pub mod Gates
pub mod Membership
pub mod InFlight
pub mod Admission
use clawie.Prelude.{
  String, Bool, true, false, not, ◌&&◌, ◌||◌, Option, none, some, List, [], ◌∷◌, ◌++◌,
  if◌then◌else◌, leb, is_one_of, str_eq, sql_eq, opt_eq, or_else, is_some, select, find, exists,
  update_where, delete_where, order_by,
}
use clawie.Central.{
  CentralDb, User, UserRole, UserRoleKind, owner, admin, is_role, AgentGroupMember,
}

-- Users

unfoldable pub get_user : String → CentralDb → Option User
get_user id db = find (λ (u : User). str_eq u.id id) db.users

-- INSERT … ON CONFLICT(id) DO UPDATE SET display_name = COALESCE(…)
unfoldable pub upsert_user : User → CentralDb → CentralDb
upsert_user user db = record db {
  users =
      if exists (λ (u : User). str_eq u.id user.id) db.users
      then update_where (λ (u : User). str_eq u.id user.id)
          (λ u. record u {
            display_name = if is_some user.display_name then user.display_name else u.display_name;
          })
          db.users
      else db.users ++ user ∷ [];
}

-- Roles

abbrev pub roles : CentralDb → List UserRole
roles db = or_else db.user_roles []

-- WHERE user_id = ? AND role = ? AND agent_group_id IS NULL, or = ?
abbrev pub has_key : String → UserRoleKind → Option String → UserRole → Bool
has_key user_id role agent_group_id r =
    str_eq r.user_id user_id && is_role role r.role && opt_eq r.agent_group_id agent_group_id

-- `none` is an error: an owner of one group, or the primary key, in which NULLs differ
unfoldable pub grant_role : UserRole → CentralDb → Option CentralDb
grant_role row db =
    if is_role owner row.role && is_some row.agent_group_id
    then none
    else if is_some row.agent_group_id
        && exists (has_key row.user_id row.role row.agent_group_id) (roles db)
    then none
    else some (record db { user_roles = some (roles db ++ row ∷ []) })

unfoldable pub revoke_role : String → UserRoleKind → Option String → CentralDb → CentralDb
revoke_role user_id role agent_group_id db = record db {
  user_roles = some (delete_where (has_key user_id role agent_group_id) (roles db));
}

unfoldable pub is_owner : String → CentralDb → Bool
is_owner user_id db = exists (has_key user_id owner none) (roles db)

unfoldable pub is_global_admin : String → CentralDb → Bool
is_global_admin user_id db = exists (has_key user_id admin none) (roles db)

unfoldable pub is_admin_of_agent_group : String → String → CentralDb → Bool
is_admin_of_agent_group user_id agent_group_id db =
    exists (has_key user_id admin (some agent_group_id)) (roles db)

unfoldable pub has_admin_privilege : String → String → CentralDb → Bool
has_admin_privilege user_id agent_group_id db =
    is_owner user_id db
    || is_global_admin user_id db
    || is_admin_of_agent_group user_id agent_group_id db

abbrev pub is_holder : UserRoleKind → Option String → UserRole → Bool
is_holder role agent_group_id r = is_role role r.role && opt_eq r.agent_group_id agent_group_id

-- ORDER BY granted_at
abbrev pub granted_before : UserRole → UserRole → Bool
granted_before a b = leb a.granted_at b.granted_at

unfoldable pub get_owners : CentralDb → List UserRole
get_owners db = order_by granted_before (select (is_holder owner none) (roles db))

unfoldable pub get_global_admins : CentralDb → List UserRole
get_global_admins db = order_by granted_before (select (is_holder admin none) (roles db))

unfoldable pub get_admins_of_agent_group : String → CentralDb → List UserRole
get_admins_of_agent_group agent_group_id db =
    order_by granted_before (select (is_holder admin (some agent_group_id)) (roles db))

unfoldable pub has_any_owner : CentralDb → Bool
has_any_owner db = exists (is_holder owner none) (roles db)

-- Members

abbrev pub is_membership : String → String → AgentGroupMember → Bool
is_membership user_id agent_group_id m =
    str_eq m.user_id user_id && str_eq m.agent_group_id agent_group_id

unfoldable pub has_membership_row : String → String → CentralDb → Bool
has_membership_row user_id agent_group_id db =
    exists (is_membership user_id agent_group_id) db.agent_group_members

-- INSERT OR IGNORE; the foreign keys are taken to hold
unfoldable pub add_member : AgentGroupMember → CentralDb → CentralDb
add_member row db =
    if exists (is_membership row.user_id row.agent_group_id) db.agent_group_members
    then db
    else record db { agent_group_members = db.agent_group_members ++ row ∷ [] }

unfoldable pub remove_member : String → String → CentralDb → CentralDb
remove_member user_id agent_group_id db = record db {
  agent_group_members = delete_where (is_membership user_id agent_group_id) db.agent_group_members;
}

unfoldable pub is_member : String → String → CentralDb → Bool
unfolding has_membership_row
is_member user_id agent_group_id db =
    if is_owner user_id db
      || is_global_admin user_id db
      || is_admin_of_agent_group user_id agent_group_id db
    then true
    else has_membership_row user_id agent_group_id db

-- Access

pub data AccessReason : Type 0 where
  by_owner by_global_admin by_admin_of_group by_member : AccessReason

pub data RefusalReason : Type 0 where
  unknown_user not_member : RefusalReason

pub data AccessDecision : Type 0 where
  allowed : AccessReason → AccessDecision
  refused : RefusalReason → AccessDecision

abbrev pub is_allowed : AccessDecision → Bool
is_allowed (allowed reason) = true
is_allowed (refused reason) = false

unfoldable pub can_access_agent_group : String → String → CentralDb → AccessDecision
can_access_agent_group user_id agent_group_id db =
    if not (is_some (get_user user_id db))
    then refused unknown_user
    else if is_owner user_id db
    then allowed by_owner
    else if is_global_admin user_id db
    then allowed by_global_admin
    else if is_admin_of_agent_group user_id agent_group_id db
    then allowed by_admin_of_group
    else if is_member user_id agent_group_id db
    then allowed by_member
    else refused not_member

-- `pickApprover`: the users of the rows, each once; `seen` is what was added before
unfoldable pub add_all : List UserRole → List String → List String
add_all [] seen = seen
add_all (r ∷ rows) seen =
    add_all rows (if is_one_of seen r.user_id then seen else seen ++ r.user_id ∷ [])

-- an agent group that is null or the empty text has no admins of its own
unfoldable pub pick_approver : Option String → CentralDb → List String
unfolding add_all
pick_approver agent_group_id db =
    let scoped : List UserRole = elim agent_group_id [
      | none ↦ []
      | some id ↦ if str_eq id "" then [] else get_admins_of_agent_group id db
    ] in
    add_all (get_owners db) (add_all (get_global_admins db) (add_all scoped []))
