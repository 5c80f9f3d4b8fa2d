-- ===== src/Router/Access.antt =====
-- What access depends on, which neither the gates nor a message that is stored change.
use mathlib.Core.Path.{subst}
use mathlib.Core.Option.{some-injective}
use clawie.Json.{Content}
use clawie.SessionDb.{InboundDb, NewMessage, insert_message}
use clawie.Prelude.{
  ap, is_some, false≢true, exists, String, ◌≡◌, ◌≢◌, refl, ◌∙◌, Bool, true, false, Option, none,
  some, inl, inr, Option-cases, if-intro, str_eq, ℕ,
}
use clawie.Inbound.{InboundEvent}
use clawie.Central.{
  CentralDb, MessagingGroup, MessagingGroupAgent, Session, SessionMode, UnknownSenderPolicy,
  UnregisteredSender, strict, request_approval, public, create_session, touch_session,
  PendingSenderApproval, record_dropped_message,
}
use clawie.Permissions.{
  get_user, is_owner, is_global_admin, is_admin_of_agent_group, is_member, has_membership_row,
  can_access_agent_group, is_allowed,
}
use clawie.Permissions.Gates.{
  ApprovalDesk, access_gate, check_access, handle_unknown_sender, request_if_known, by_policy,
  drop_record, begin_sender_approval, finish_sender_approval, create_pending_sender_approval,
  request_sender_approval, clashes,
}
use clawie.SessionManager.{Host, resolve_session, find_session, with_message, write_session_message}
use clawie.Router.{Gateway, RouterState, write_and_wake, inbound_message}

-- the tables that access depends on are the same
pub record SameAccess (before after : CentralDb) : Type 0 where
  pub users : after.users ≡ before.users
  pub roles : after.user_roles ≡ before.user_roles
  pub members : after.agent_group_members ≡ before.agent_group_members

pub SameAccess-refl : {db : CentralDb} → SameAccess db db
SameAccess-refl = record { users = refl; roles = refl; members = refl }

pub SameAccess-trans : {a b c : CentralDb} → SameAccess a b → SameAccess b c → SameAccess a c
SameAccess-trans ab bc = record {
  users = bc.users ∙ ab.users;
  roles = bc.roles ∙ ab.roles;
  members = bc.members ∙ ab.members;
}

-- whether the tables give a sender access to an agent group
abbrev pub is_let_in : Option String → String → CentralDb → Bool
is_let_in none agent_group_id db = false
is_let_in (some id) agent_group_id db = is_allowed (can_access_agent_group id agent_group_id db)

pub is_let_in-same :
    (user_id : Option String) (agent_group_id : String) {a b : CentralDb}
    → SameAccess a b
    → is_let_in user_id agent_group_id b ≡ is_let_in user_id agent_group_id a
unfolding can_access_agent_group get_user is_owner is_global_admin is_admin_of_agent_group is_member
    has_membership_row
is_let_in-same none agent_group_id same = refl
is_let_in-same (some id) agent_group_id same = rw (same.users, same.roles, same.members) refl

create_pending_sender_approval-SameAccess :
    (row : PendingSenderApproval) (db after : CentralDb)
    → create_pending_sender_approval row db ≡ some after
    → SameAccess db after
unfolding create_pending_sender_approval
create_pending_sender_approval-SameAccess row db after e =
    if-intro (λ (o : Option CentralDb). o ≡ some after → SameAccess db after)
      (exists (clashes row) db.pending_sender_approvals)
      (λ _ e'. absurd (false≢true (ap is_some e')))
      (λ _ e'.
        subst (SameAccess db) (some-injective _ after e')
          (record { users = refl; roles = refl; members = refl }))
      e

finish_sender_approval-SameAccess :
    (row : PendingSenderApproval) (db : CentralDb) → SameAccess db (finish_sender_approval row db)
unfolding finish_sender_approval
finish_sender_approval-SameAccess row db =
    elim (Option-cases (create_pending_sender_approval row db)) [
      | inl e ↦ rw e (record { users = refl; roles = refl; members = refl })
      | inr (after, e) ↦ rw e (create_pending_sender_approval-SameAccess row db after e)
    ]

request_sender_approval-SameAccess :
    (desk : ApprovalDesk) (messaging_group_id agent_group_id sender_identity : String)
    (event : InboundEvent) (db : CentralDb)
    → SameAccess db
        (request_sender_approval desk messaging_group_id agent_group_id sender_identity event db)
unfolding request_sender_approval
request_sender_approval-SameAccess desk messaging_group_id agent_group_id sender_identity event db =
    elim (Option-cases
      (begin_sender_approval desk messaging_group_id agent_group_id sender_identity event db)) [
        | inl e ↦
            rw (e, request_sender_approval) (record { users = refl; roles = refl; members = refl })
        | inr (row, e) ↦ rw (e, request_sender_approval) (finish_sender_approval-SameAccess row db)
      ]

by_policy-SameAccess :
    (p : UnknownSenderPolicy) (db a b c : CentralDb)
    → SameAccess db a
    → SameAccess db b
    → SameAccess db c
    → SameAccess db (by_policy p a b c)
by_policy-SameAccess strict db a b c x y z = x
by_policy-SameAccess request_approval db a b c x y z = y
by_policy-SameAccess public db a b c x y z = z

pub record_dropped_message-SameAccess :
    (msg : UnregisteredSender) (db : CentralDb) → SameAccess db (record_dropped_message msg db)
unfolding record_dropped_message
record_dropped_message-SameAccess msg db = record { users = refl; roles = refl; members = refl }

handle_unknown_sender-SameAccess :
    (desk : ApprovalDesk) (mg : MessagingGroup) (user_id : Option String) (agent_group_id : String)
    (event : InboundEvent) (db : CentralDb)
    → SameAccess db (handle_unknown_sender desk mg user_id agent_group_id event db)
unfolding handle_unknown_sender record_dropped_message
handle_unknown_sender-SameAccess desk mg user_id agent_group_id event db =
    let recorded = record_dropped_message (drop_record mg user_id agent_group_id event) db in
    by_policy-SameAccess mg.unknown_sender_policy db recorded
      (request_if_known desk mg user_id agent_group_id event recorded) db
      (record { users = refl; roles = refl; members = refl }) (known user_id)
      (record { users = refl; roles = refl; members = refl })
  where
    known :
        (u : Option String)
        → SameAccess db (
            request_if_known desk mg u agent_group_id event
              (record_dropped_message (drop_record mg user_id agent_group_id event) db))
    known none = (record { users = refl; roles = refl; members = refl })
    known (some id) =
        let recorded = record_dropped_message (drop_record mg user_id agent_group_id event) db in
        if-intro (SameAccess db) (str_eq id "")
          (λ _. (record { users = refl; roles = refl; members = refl }))
          (λ _.
            SameAccess-trans
              (record_dropped_message-SameAccess (drop_record mg user_id agent_group_id event) db)
              (request_sender_approval-SameAccess desk mg.id agent_group_id id event recorded))

check_access-refused :
    (desk : ApprovalDesk) (event : InboundEvent) (user_id : Option String) (mg : MessagingGroup)
    (agent_group_id : String) (db : CentralDb)
    → is_let_in user_id agent_group_id db ≡ false
    → ((check_access desk event user_id mg agent_group_id db).1 ≡ false)
      × SameAccess db (check_access desk event user_id mg agent_group_id db).0
unfolding check_access
check_access-refused desk event none mg agent_group_id db refused =
    (refl, handle_unknown_sender-SameAccess desk mg none agent_group_id event db)
check_access-refused desk event (some id) mg agent_group_id db refused =
    if-intro (λ (r : CentralDb × Bool). (r.1 ≡ false) × SameAccess db r.0) (str_eq id "")
      (λ _. (refl, handle_unknown_sender-SameAccess desk mg none agent_group_id event db))
      (λ _.
        rw refused
          (refl, handle_unknown_sender-SameAccess desk mg (some id) agent_group_id event db))

by_policy-closed :
    {A : Type 0} (p : UnknownSenderPolicy) (a b : A) → p ≢ public → by_policy p a a b ≡ a
by_policy-closed strict a b closed = refl
by_policy-closed request_approval a b closed = refl
by_policy-closed public a b closed = absurd (closed refl)

pub access_gate-refused :
    (desk : ApprovalDesk) (event : InboundEvent) (user_id : Option String) (mg : MessagingGroup)
    (agent_group_id : String) (db : CentralDb)
    → mg.unknown_sender_policy ≢ public
    → is_let_in user_id agent_group_id db ≡ false
    → ((access_gate desk event user_id mg agent_group_id db).1 ≡ false)
      × SameAccess db (access_gate desk event user_id mg agent_group_id db).0
unfolding access_gate
access_gate-refused desk event user_id mg agent_group_id db closed refused =
    rw
      (by_policy-closed mg.unknown_sender_policy
        (check_access desk event user_id mg agent_group_id db) (db, true) closed)
      (check_access-refused desk event user_id mg agent_group_id db refused)

pub resolve_session-SameAccess :
    (id : String) (now : ℕ) (agent_group_id : String) (messaging_group_id thread_id : Option String)
    (mode : SessionMode) (db : CentralDb)
    → SameAccess db (resolve_session id now agent_group_id messaging_group_id thread_id mode db).1
unfolding resolve_session create_session
resolve_session-SameAccess id now agent_group_id messaging_group_id thread_id mode db =
    elim (Option-cases (find_session agent_group_id messaging_group_id thread_id mode db)) [
      | inl e ↦ rw (e, resolve_session) (record { users = refl; roles = refl; members = refl })
      | inr (session, e) ↦
          rw (e, resolve_session) (record { users = refl; roles = refl; members = refl })
    ]

write_session_message-SameAccess :
    (stage : String → Content → Content) (now : ℕ) (session_id : String) (message : NewMessage)
    (host after : Host)
    → write_session_message stage now session_id message host ≡ some after
    → SameAccess host.central after.central
unfolding write_session_message touch_session
write_session_message-SameAccess stage now session_id message host after e =
    written
      (insert_message (host.inbound session_id)
        (record message { content = stage message.id message.content }))
      e
  where
    written :
        (o : Option InboundDb)
        → with_message now session_id host o ≡ some after
        → SameAccess host.central after.central
    written none e' = absurd (false≢true (ap is_some e'))
    written (some db) e' =
        subst (λ (h : Host). SameAccess host.central h.central) (some-injective _ after e')
          (record { users = refl; roles = refl; members = refl })

pub write_and_wake-SameAccess :
    (w : Gateway) (event : InboundEvent) (agent : MessagingGroupAgent) (session : Session)
    (s : RouterState)
    → SameAccess s.host.central (write_and_wake w event agent session false s).0.host.central
unfolding write_and_wake
write_and_wake-SameAccess w event agent session s =
    let message = inbound_message w event agent.agent_group_id false in
    elim (Option-cases (write_session_message w.stage w.now session.id message s.host)) [
      | inl e ↦ rw (e, write_and_wake) (record { users = refl; roles = refl; members = refl })
      | inr (host, e) ↦
          rw (e, write_and_wake)
            (write_session_message-SameAccess w.stage w.now session.id message s.host host e)
    ]
