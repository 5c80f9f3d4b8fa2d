-- ===== src/UserDm/Again.antt =====
-- The second time that src/modules/permissions/user-dm.ts looks for the chat with a user.
use mathlib.Core.Path.{subst}
use clawie.Prelude.{
  ℕ, ◌≤◌, String, Bool, true, false, Option, none, some, List, [], ◌∷◌, ◌≡◌, refl, ap, ◌∙◌, inl,
  inr, arith, Bool-cases, if-intro, is_some, false≢true, str_eq, str_eq_refl, find, exists,
  update_where, count, find-key, find-fresh,
}
use clawie.Central.{
  User, MessagingGroup, CentralDb, get_messaging_group, get_messaging_group_by_platform,
  create_messaging_group, is_at, clashes,
}
use clawie.Permissions.{get_user}
use clawie.UserDm.{
  UserDm, DirectChats, is_dm, get_user_dm, upsert_user_dm, Platforms, parse_user_id,
  resolve_dm_platform_id, cached_group, dm_group, created, found_or_created, remembered,
  at_platform_id, from_cache, at_address, of_user, ensure_user_dm,
}

upsert_user_dm-cached :
    (row : UserDm) (chats : DirectChats) (db : CentralDb)
    → cached_group (get_user_dm row.user_id row.channel_type (upsert_user_dm row chats)) db
      ≡ get_messaging_group row.messaging_group_id db
unfolding upsert_user_dm get_user_dm
upsert_user_dm-cached row chats db =
    if-intro
      (λ (rows : List UserDm).
        cached_group (find (is_dm row.user_id row.channel_type) rows) db
        ≡ get_messaging_group row.messaging_group_id db)
      (exists (is_dm row.user_id row.channel_type) chats.user_dms)
      (λ held. updated chats.user_dms held)
      (λ free.
        ap (λ o. cached_group o db)
          (find-fresh (is_dm row.user_id row.channel_type) (is_dm row.user_id row.channel_type)
            (λ r h. h) chats.user_dms row free
            (ground (arith, str_eq_refl row.user_id, str_eq_refl row.channel_type))))
  where
    updated :
        (rows : List UserDm)
        → exists (is_dm row.user_id row.channel_type) rows ≡ true
        → cached_group
            (find (is_dm row.user_id row.channel_type) (
              update_where
                (is_dm row.user_id row.channel_type)
                (λ r. record r {
                  messaging_group_id = row.messaging_group_id;
                  resolved_at = row.resolved_at;
                })
                rows))
            db
          ≡ get_messaging_group row.messaging_group_id db
    updated [] h = absurd (false≢true h)
    updated (r ∷ rows) h = elim (Bool-cases (is_dm row.user_id row.channel_type r)) [
      | inl t ↦ rw (t, t) refl
      | inr f ↦ rw (f, f) (updated rows (rw f at h))
    ]

abbrev pub same_id : String → MessagingGroup → Bool
same_id id g = str_eq g.id id

-- A chat that was found or created is found by its id.
abbrev KnownGroup : CentralDb → Option (CentralDb × MessagingGroup) → Type 0
KnownGroup db none = Unit
KnownGroup db (some (after, mg)) =
    (after.users ≡ db.users)
    × (count (same_id mg.id) after.messaging_groups ≤ 1 → get_messaging_group mg.id after ≡ some mg)

created-KnownGroup :
    (user : User) (id channel_type platform_id : String) (db : CentralDb)
    → KnownGroup db (
        created
          (dm_group id user channel_type platform_id)
          (create_messaging_group (dm_group id user channel_type platform_id) db))
unfolding create_messaging_group get_messaging_group
created-KnownGroup user id channel_type platform_id db =
    let group = dm_group id user channel_type platform_id in
    if-intro (λ o. KnownGroup db (created group o)) (exists (clashes group) db.messaging_groups)
      (λ _. tt)
      (λ free. (
        refl,
        λ _.
            find-fresh (same_id id) (clashes group) (λ g h. ground (arith, h)) db.messaging_groups
              group free (str_eq_refl id),
      ))

found_or_created-KnownGroup :
    (user : User) (id channel_type platform_id : String) (db : CentralDb)
    (o : Option MessagingGroup)
    → get_messaging_group_by_platform channel_type platform_id db ≡ o
    → KnownGroup db (found_or_created (dm_group id user channel_type platform_id) o db)
unfolding get_messaging_group_by_platform get_messaging_group
found_or_created-KnownGroup user id channel_type platform_id db none e =
    created-KnownGroup user id channel_type platform_id db
found_or_created-KnownGroup user id channel_type platform_id db (some mg) e =
    (refl, λ one. by_id e one)
  where
    by_id :
        get_messaging_group_by_platform channel_type platform_id db ≡ some mg
        → count (same_id mg.id) db.messaging_groups ≤ 1
        → get_messaging_group mg.id db ≡ some mg
    by_id found one =
        find-key (same_id mg.id) (is_at channel_type platform_id) db.messaging_groups mg found
          (str_eq_refl mg.id) one

abbrev pub reached : Option (DirectChats × Option MessagingGroup) → Bool
reached none = false
reached (some (after, mg)) = is_some mg

-- the chat of a user that is known after a call
abbrev Settled : User → String → DirectChats → Option (DirectChats × Option MessagingGroup) → Type 0
Settled user channel_type chats none = Unit
Settled user channel_type chats (some (after, none)) = Unit
Settled user channel_type chats (some (after, some mg)) =
    (after.central.users ≡ chats.central.users)
    × (count (same_id mg.id) after.central.messaging_groups ≤ 1
        → cached_group (get_user_dm user.id channel_type after) after.central ≡ some mg)

remembered-Settled :
    (now : ℕ) (user : User) (channel_type : String) (chats : DirectChats)
    (o : Option (CentralDb × MessagingGroup))
    → KnownGroup chats.central o
    → Settled user channel_type chats (remembered now user.id channel_type chats o)
unfolding upsert_user_dm
remembered-Settled now user channel_type chats none known = tt
remembered-Settled now user channel_type chats (some (db, mg)) known = (
  known.0,
  λ one.
      upsert_user_dm-cached
        (record {
          user_id = user.id;
          channel_type = channel_type;
          messaging_group_id = mg.id;
          resolved_at = now;
        })
        (record chats { central = db }) db
      ∙ known.1 one,
)

module _ (platforms : Platforms) (now : ℕ) (user : User) (chats : DirectChats) where
  at_platform_id-Settled :
      (channel_type : String) (o : Option String)
      → Settled user channel_type chats (at_platform_id platforms now user channel_type chats o)
  at_platform_id-Settled channel_type none = tt
  at_platform_id-Settled channel_type (some platform_id) =
      if-intro (Settled user channel_type chats) (str_eq platform_id "") (λ _. tt)
        (λ _.
          remembered-Settled now user channel_type chats
            (found_or_created (dm_group (platforms.fresh_id user.id) user channel_type platform_id)
              (get_messaging_group_by_platform channel_type platform_id chats.central)
              chats.central)
            (found_or_created-KnownGroup user (platforms.fresh_id user.id) channel_type platform_id
              chats.central (get_messaging_group_by_platform channel_type platform_id chats.central)
              refl))

  from_cache-Settled :
      (channel_type handle : String) (o : Option MessagingGroup)
      → cached_group (get_user_dm user.id channel_type chats) chats.central ≡ o
      → Settled user channel_type chats
          (from_cache platforms now user (channel_type, handle) chats o)
  from_cache-Settled channel_type handle none e =
      at_platform_id-Settled channel_type (resolve_dm_platform_id platforms channel_type handle)
  from_cache-Settled channel_type handle (some mg) e = (refl, λ _. e)

  -- A second call finds the chat of the first.
  at_address-again :
      (address : Option (String × String)) (after : DirectChats) (mg : MessagingGroup)
      (again : Platforms) (later : ℕ)
      → at_address platforms now user chats address ≡ some (after, some mg)
      → count (same_id mg.id) after.central.messaging_groups ≤ 1
      → (after.central.users ≡ chats.central.users)
        × (at_address again later user after address ≡ some (after, some mg))
  at_address-again none after mg again later e one = absurd (false≢true (ap reached e))
  at_address-again (some (channel_type, handle)) after mg again later e one =
      let (users, held) = subst (Settled user channel_type chats) e (
        from_cache-Settled channel_type handle
          (cached_group (get_user_dm user.id channel_type chats) chats.central) refl) in
      (users, rw (held one) refl)

-- Once a user was found a chat in a channel, later calls give that chat and change nothing,
-- whatever the platform would answer then, where the ids of chats differ.
pub ensure_user_dm-again :
    (platforms : Platforms) (now later : ℕ) (open_dm : String → Option (String → Option String))
    (fresh_id : String → String) (user_id : String) (chats after : DirectChats)
    (mg : MessagingGroup)
    → ensure_user_dm platforms now user_id chats ≡ some (after, some mg)
    → count (same_id mg.id) after.central.messaging_groups ≤ 1
    → ensure_user_dm
        (record platforms { open_dm = open_dm; fresh_id = fresh_id })
        later
        user_id
        after
      ≡ some (after, some mg)
unfolding ensure_user_dm get_user parse_user_id
ensure_user_dm-again platforms now later open_dm fresh_id user_id chats after mg e one =
    by_user (get_user user_id chats.central) refl e
  where
    again : Platforms
    again = record platforms { open_dm = open_dm; fresh_id = fresh_id }

    by_user :
        (o : Option User)
        → get_user user_id chats.central ≡ o
        → of_user platforms now chats o ≡ some (after, some mg)
        → of_user again later after (get_user user_id after.central) ≡ some (after, some mg)
    by_user none known e' = absurd (false≢true (ap reached e'))
    by_user (some user) known e' =
        let (users, same) =
          at_address-again platforms now user chats (parse_user_id platforms user) after mg again
            later e' one in
        ap (of_user again later after) (ap (find (λ (u : User). str_eq u.id user_id)) users ∙ known)
        ∙ same
