-- ===== src/Permissions/Access.antt =====
-- Who can talk to an agent group: the decision as one condition, and what granting and revoking
-- roles and memberships do to it.
use clawie.Prelude.{
  String, ◌≡◌, refl, sym, Bool, true, ◌&&◌, ◌||◌, Option, none, some, [], ◌∷◌, ◌++◌, arith, is_some,
  exists, delete_where, str_eq, str_eq_refl, opt_eq, if-intro, or_else, exists-append,
  exists-delete_where, exists-delete_where_apart, delete_where-append, ap, str_eq_iff,
}
use clawie.Central.{CentralDb, UserRole, UserRoleKind, owner, admin, is_role, AgentGroupMember}
use clawie.Permissions.{
  get_user, roles, has_key, grant_role, revoke_role, is_owner, is_global_admin,
  is_admin_of_agent_group, has_admin_privilege, has_membership_row, is_membership, add_member,
  is_member, can_access_agent_group, is_allowed,
}

-- A user is let in exactly if it is known and is an owner, an admin of all groups or of this
-- one, or a member of the group.
pub can_access_agent_group_lem :
    (user_id agent_group_id : String) (db : CentralDb)
    → is_allowed (can_access_agent_group user_id agent_group_id db) ≡ (
        is_some (get_user user_id db)
        && (has_admin_privilege user_id agent_group_id db
            || has_membership_row user_id agent_group_id db))
unfolding can_access_agent_group is_member has_admin_privilege
can_access_agent_group_lem user_id agent_group_id db = ground arith

same_member :
    (row : AgentGroupMember) (db : CentralDb) (user_id agent_group_id : String)
    → str_eq row.user_id user_id ≡ true
    → str_eq row.agent_group_id agent_group_id ≡ true
    → exists (is_membership user_id agent_group_id) db.agent_group_members
      ≡ exists (is_membership row.user_id row.agent_group_id) db.agent_group_members
same_member row db user_id agent_group_id u g =
    let eu = (str_eq_iff row.user_id user_id).0 u in
    let eg = (str_eq_iff row.agent_group_id agent_group_id).0 g in
    ap (λ (k : String × String). exists (is_membership k.0 k.1) db.agent_group_members)
      (cc (eu, eg))

or_absorb : (a b c e : Bool) → e ≡ true → (b ≡ true → c ≡ true → a ≡ e) → a ≡ (a || b && c)
or_absorb a b c e he h = ground (arith, he, h)

-- A member that is added is in the group from then on, whether it was before or not, and the
-- others are in it if they were.
pub has_membership_row-add_member :
    (row : AgentGroupMember) (db : CentralDb) (user_id agent_group_id : String)
    → has_membership_row user_id agent_group_id (add_member row db) ≡ (
        has_membership_row user_id agent_group_id db
        || str_eq row.user_id user_id && str_eq row.agent_group_id agent_group_id)
unfolding has_membership_row add_member
has_membership_row-add_member row db user_id agent_group_id =
    if-intro
      (λ (d : CentralDb). exists (is_membership user_id agent_group_id) d.agent_group_members ≡ (
        exists (is_membership user_id agent_group_id) db.agent_group_members
        || str_eq row.user_id user_id && str_eq row.agent_group_id agent_group_id))
      (exists (is_membership row.user_id row.agent_group_id) db.agent_group_members)
      (λ there.
        or_absorb (exists (is_membership user_id agent_group_id) db.agent_group_members)
          (str_eq row.user_id user_id) (str_eq row.agent_group_id agent_group_id)
          (exists (is_membership row.user_id row.agent_group_id) db.agent_group_members) there
          (same_member row db user_id agent_group_id))
      (λ absent. exists-append (is_membership user_id agent_group_id) db.agent_group_members row)

opt_eq_refl : (o : Option String) → opt_eq o o ≡ true
opt_eq_refl none = refl
opt_eq_refl (some s) = str_eq_refl s

is_role_refl : (r : UserRoleKind) → is_role r r ≡ true
is_role_refl owner = refl
is_role_refl admin = refl

has_key_own : (row : UserRole) → has_key row.user_id row.role row.agent_group_id row ≡ true
has_key_own row =
    ground (arith, str_eq_refl row.user_id, opt_eq_refl row.agent_group_id, is_role_refl row.role)

-- what is in the table after a grant
granted :
    (row : UserRole) (db db' : CentralDb)
    → grant_role row db ≡ some db'
    → roles db' ≡ roles db ++ row ∷ []
unfolding grant_role
granted row db db' h =
    if-intro Makes (is_role owner row.role && is_some row.agent_group_id) (λ _ e. ground (arith, e))
      (λ _.
        if-intro Makes
          (is_some row.agent_group_id
            && exists (has_key row.user_id row.role row.agent_group_id) (roles db))
          (λ _ e. ground (arith, e)) (λ _ e. sym (ap (λ o. roles (or_else o db)) e)))
      h
  where
    Makes : Option CentralDb → Type 0
    Makes o = o ≡ some db' → roles db' ≡ roles db ++ row ∷ []

-- Granting a role and revoking it leaves the roles that there were, less those of the same key.
pub revoke_role-grant_role :
    (row : UserRole) (db db' : CentralDb)
    → grant_role row db ≡ some db'
    → roles (revoke_role row.user_id row.role row.agent_group_id db')
      ≡ delete_where (has_key row.user_id row.role row.agent_group_id) (roles db)
unfolding revoke_role
revoke_role-grant_role row db db' h = rw (granted row db db' h) (
    delete_where-append (has_key row.user_id row.role row.agent_group_id) (roles db) row
      (has_key_own row))

-- Once a user's role in an agent group is revoked, the user administers the group only as an owner
-- or as an admin of all groups, as before.
pub has_admin_privilege-revoke_role :
    (user_id agent_group_id : String) (db : CentralDb)
    → has_admin_privilege user_id agent_group_id
        (revoke_role user_id admin (some agent_group_id) db)
      ≡ (is_owner user_id db || is_global_admin user_id db)
unfolding has_admin_privilege is_owner is_global_admin is_admin_of_agent_group revoke_role
has_admin_privilege-revoke_role user_id agent_group_id db =
    let revoked = has_key user_id admin (some agent_group_id) in
    rw
      (
        exists-delete_where revoked (roles db),
        exists-delete_where_apart (has_key user_id owner none) revoked (roles db)
            (λ r h. ground arith),
        exists-delete_where_apart (has_key user_id admin none) revoked (roles db)
            (λ r h. ground arith),
      )
      (ground arith)
