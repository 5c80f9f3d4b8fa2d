-- ===== src/Permissions/Approvers.antt =====
-- Whom an approval may be asked of: `pickApprover`.
use clawie.Prelude.{
  ℕ, ◌≤◌, String, ◌≡◌, refl, sym, ◌∙◌, Bool, true, false, ◌&&◌, ◌||◌, Option, none, some, List, [],
  ◌∷◌, ◌++◌, inl, inr, arith, exists, select, order_by, insert_sorted, is_one_of, str_eq,
  str_eq_iff, count, count-append, Bool-cases, opt_eq, if-intro, false≢true,
}
use clawie.Central.{CentralDb, UserRole, UserRoleKind, owner, admin, is_role}
use clawie.Permissions.{
  roles, has_key, is_holder, granted_before, is_owner, is_global_admin, is_admin_of_agent_group,
  has_admin_privilege, get_owners, get_global_admins, get_admins_of_agent_group, add_all,
  pick_approver,
}

abbrev of_user : String → UserRole → Bool
of_user user_id r = str_eq r.user_id user_id

one_of-append :
    (xs : List String) (y x : String) → is_one_of (xs ++ y ∷ []) x ≡ (is_one_of xs x || str_eq y x)
one_of-append [] y x = ground arith
one_of-append (z ∷ xs) y x = ground (arith, one_of-append xs y x)

one_of-same :
    (xs : List String) (y x : String)
    → is_one_of xs y ≡ true
    → str_eq y x ≡ true
    → is_one_of xs x ≡ true
one_of-same xs y x h e = rw (sym ((str_eq_iff y x).0 e)) h

or_absorb : (a b c : Bool) → (b ≡ true → a ≡ true) → (a || c) ≡ (a || (b || c))
or_absorb a b c h = ground (arith, h)

exists-cons :
    (p : UserRole → Bool) (r : UserRole) (rows : List UserRole)
    → exists p (r ∷ rows) ≡ (p r || exists p rows)
exists-cons p r rows = ground arith

or_assoc : (a b c : Bool) → ((a || b) || c) ≡ (a || (b || c))
or_assoc a b c = ground arith

-- the users of the rows, and those that were there
one_of-add_all :
    (rows : List UserRole) (seen : List String) (x : String)
    → is_one_of (add_all rows seen) x ≡ (is_one_of seen x || exists (of_user x) rows)
unfolding add_all
one_of-add_all [] seen x = ground arith
one_of-add_all (r ∷ rows) seen x = rw (exists-cons (of_user x) r rows) (
    if-intro
      (λ (s : List String).
        is_one_of (add_all rows s) x
        ≡ (is_one_of seen x || (of_user x r || exists (of_user x) rows)))
      (is_one_of seen r.user_id)
      (λ there.
        one_of-add_all rows seen x
        ∙ or_absorb (is_one_of seen x) (of_user x r) (exists (of_user x) rows)
            (one_of-same seen r.user_id x there))
      (λ absent.
        one_of-add_all rows (seen ++ r.user_id ∷ []) x
        ∙ rw (one_of-append seen r.user_id x)
            (or_assoc (is_one_of seen x) (of_user x r) (exists (of_user x) rows))))

abbrev times : String → List String → ℕ
times x xs = count (λ y. str_eq y x) xs

absent→zero : (xs : List String) (x : String) → is_one_of xs x ≡ false → times x xs ≡ 0
absent→zero [] x h = refl
absent→zero (y ∷ ys) x h = ground (arith, h, absent→zero ys x)

times-append-le :
    (xs : List String) (y x : String)
    → is_one_of xs y ≡ false
    → times x xs ≤ 1
    → times x (xs ++ y ∷ []) ≤ 1
times-append-le xs y x absent once =
    rw (count-append (λ z. str_eq z x) xs (y ∷ [])) (elim (Bool-cases (str_eq y x)) [
      | inl e ↦
          let none_of : times x xs ≡ 0 =
            absent→zero xs x (rw (sym ((str_eq_iff y x).0 e)) absent) in
          ground (arith, none_of)
      | inr ne ↦ ground (arith, ne, once)
    ])

-- nobody is added twice
times-add_all-le :
    (rows : List UserRole) (seen : List String) (x : String)
    → times x seen ≤ 1
    → times x (add_all rows seen) ≤ 1
unfolding add_all
times-add_all-le [] seen x once = once
times-add_all-le (r ∷ rows) seen x once =
    if-intro (λ (s : List String). times x (add_all rows s) ≤ 1) (is_one_of seen r.user_id)
      (λ there. times-add_all-le rows seen x once)
      (λ absent.
        times-add_all-le rows (seen ++ r.user_id ∷ []) x
          (times-append-le seen r.user_id x absent once))

exists-order_by :
    (p : UserRole → Bool) (before : UserRole → UserRole → Bool) (rows : List UserRole)
    → exists p (order_by before rows) ≡ exists p rows
exists-order_by p before [] = refl
exists-order_by p before (r ∷ rows) =
    exists-insert r (order_by before rows) ∙ ground (arith, exists-order_by p before rows)
  where
    exists-insert :
        (r : UserRole) (rows : List UserRole)
        → exists p (insert_sorted before r rows) ≡ (p r || exists p rows)
    exists-insert r [] = ground arith
    exists-insert r (y ∷ ys) = ground (arith, exists-insert r ys)

exists-select :
    (p q : UserRole → Bool) (rows : List UserRole)
    → exists p (select q rows) ≡ exists (λ r. p r && q r) rows
exists-select p q [] = refl
exists-select p q (r ∷ rows) = ground (arith, exists-select p q rows)

and_assoc : (a b c : Bool) → (a && (b && c)) ≡ ((a && b) && c)
and_assoc a b c = ground arith

exists-same :
    (p q : UserRole → Bool)
    → ((r : UserRole) → p r ≡ q r)
    → (rows : List UserRole) → exists p rows ≡ exists q rows
exists-same p q same [] = refl
exists-same p q same (r ∷ rows) = ground (arith, same r, exists-same p q same rows)

module _ (x : String) (db : CentralDb) where
  holders :
      (role : UserRoleKind) (agent_group_id : Option String)
      → exists
          (of_user x)
          (order_by granted_before (select (is_holder role agent_group_id) (roles db)))
        ≡ exists (has_key x role agent_group_id) (roles db)
  holders role agent_group_id =
      exists-order_by (of_user x) granted_before (select (is_holder role agent_group_id) (roles db))
      ∙ exists-select (of_user x) (is_holder role agent_group_id) (roles db)
      ∙ exists-same (λ (r : UserRole). of_user x r && is_holder role agent_group_id r)
          (has_key x role agent_group_id)
          (λ r.
            and_assoc (of_user x r) (is_role role r.role) (opt_eq r.agent_group_id agent_group_id))
          (roles db)

  three_lists :
      (owners globals scoped : List UserRole)
      → is_one_of (add_all owners (add_all globals (add_all scoped []))) x
        ≡ ((exists (of_user x) owners || exists (of_user x) globals) || exists (of_user x) scoped)
  three_lists owners globals scoped =
      one_of-add_all owners (add_all globals (add_all scoped [])) x
      ∙ rw (one_of-add_all globals (add_all scoped []) x, one_of-add_all scoped [] x)
          (reorder (exists (of_user x) owners) (exists (of_user x) globals)
            (exists (of_user x) scoped))
    where
      reorder : (a b c : Bool) → (((false || c) || b) || a) ≡ ((a || b) || c)
      reorder a b c = ground arith

  each_once :
      (owners globals scoped : List UserRole)
      → times x (add_all owners (add_all globals (add_all scoped []))) ≤ 1
  each_once owners globals scoped =
      times-add_all-le owners (add_all globals (add_all scoped [])) x (
        times-add_all-le globals (add_all scoped []) x (times-add_all-le scoped [] x (omega arith)))

  -- The approvers for an agent group are exactly the users who administer it, each once.
  pub pick_approver_lem :
      (agent_group_id : String)
      → str_eq agent_group_id "" ≡ false
      → (is_one_of (pick_approver (some agent_group_id) db) x
          ≡ has_admin_privilege x agent_group_id db)
        × (times x (pick_approver (some agent_group_id) db) ≤ 1)
  unfolding pick_approver get_owners get_global_admins get_admins_of_agent_group has_admin_privilege
      is_owner is_global_admin is_admin_of_agent_group
  pick_approver_lem agent_group_id named =
      if-intro
        (λ (scoped : List UserRole).
          (is_one_of (add_all (get_owners db) (add_all (get_global_admins db) (add_all scoped [])))
              x
            ≡ has_admin_privilege x agent_group_id db)
          × (times x (add_all (get_owners db) (add_all (get_global_admins db) (add_all scoped [])))
              ≤ 1))
        (str_eq agent_group_id "") (λ empty. absurd (false≢true (sym named ∙ empty)))
        (λ _. (
          three_lists (get_owners db) (get_global_admins db)
                (get_admins_of_agent_group agent_group_id db)
              ∙ rw (holders owner none, holders admin none, holders admin (some agent_group_id))
                  refl,
          each_once (get_owners db) (get_global_admins db)
              (get_admins_of_agent_group agent_group_id db),
        ))
