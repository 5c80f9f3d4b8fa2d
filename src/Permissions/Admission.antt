-- ===== src/Permissions/Admission.antt =====
-- What the gates let through, and how the answer to a card admits an unknown sender.
use clawie.Prelude.{
  ℕ, String, ◌≡◌, ◌⊎◌, refl, sym, ◌∙◌, true, false, Option, none, some, inl, inr, arith, is_some,
  exists, str_eq, str_eq_iff, str_eq_refl, if-intro, exists-delete_where, find, find-holds,
}
use clawie.Inbound.{InboundEvent}
use clawie.Central.{
  CentralDb, MessagingGroup, UnknownSenderPolicy, strict, request_approval, public,
  PendingSenderApproval, User,
}
use clawie.Permissions.{get_user, can_access_agent_group, is_allowed, add_member, is_membership}
use clawie.Permissions.Access.{can_access_agent_group_lem}
use clawie.Permissions.Gates.{
  ApprovalDesk, ResponsePayload, access_gate, delete_pending_sender_approval,
  get_pending_sender_approval, clicker_id, is_authorized, admit, handle_sender_approval_response,
}
use clawie.Permissions.Membership.{admit-members}

policy_cases : (p : UnknownSenderPolicy) → (p ≡ strict) ⊎ (p ≡ request_approval) ⊎ (p ≡ public)
policy_cases strict = inl refl
policy_cases request_approval = inr (inl refl)
policy_cases public = inr (inr refl)

-- The sender that the gate lets in.
abbrev pub IsLetIn : Option String → String → CentralDb → Type 0
IsLetIn user_id agent_group_id db =
    (id : String) × (user_id ≡ some id)
    × (is_allowed (can_access_agent_group id agent_group_id db) ≡ true)

-- Whom the access gate lets in, it lets in without a trace; and it lets in only a sender of a
-- public chat or one that can access the agent group.
pub access_gate-allowed :
    (desk : ApprovalDesk) (event : InboundEvent) (user_id : Option String) (mg : MessagingGroup)
    (agent_group_id : String) (db : CentralDb)
    → (access_gate desk event user_id mg agent_group_id db).1 ≡ true
    → ((access_gate desk event user_id mg agent_group_id db).0 ≡ db)
      × ((mg.unknown_sender_policy ≡ public) ⊎ IsLetIn user_id agent_group_id db)
unfolding access_gate
access_gate-allowed desk event user_id mg agent_group_id db h = ground (arith, h)

user-admit :
    (now : ℕ) (row : PendingSenderApproval) (approver : Option String) (db : CentralDb)
    (id : String)
    → get_user id (admit now row approver db) ≡ get_user id db
unfolding get_user delete_pending_sender_approval add_member
user-admit now row approver db id =
    if-intro (λ (d : CentralDb). find (λ (u : User). str_eq u.id id) d.users ≡ get_user id db)
      (exists (is_membership row.sender_identity row.agent_group_id) db.agent_group_members)
      (λ _. refl) (λ _. refl)

admit-allowed :
    (now : ℕ) (row : PendingSenderApproval) (approver : Option String) (db : CentralDb)
    {user : User}
    → get_user row.sender_identity db ≡ some user
    → is_allowed
        (can_access_agent_group row.sender_identity row.agent_group_id (admit now row approver db))
      ≡ true
admit-allowed now row approver db known =
    can_access_agent_group_lem row.sender_identity row.agent_group_id (admit now row approver db)
    ∙ rw
        (
          user-admit now row approver db row.sender_identity,
          known,
          admit-members now row approver db row.sender_identity row.agent_group_id,
          str_eq_refl row.sender_identity,
          str_eq_refl row.agent_group_id,
        )
        (ground arith)

gate-open :
    (desk : ApprovalDesk) (event : InboundEvent) (id : String) (mg : MessagingGroup)
    (agent_group_id : String) (db : CentralDb)
    → is_allowed (can_access_agent_group id agent_group_id db) ≡ true
    → str_eq id "" ≡ false
    → (access_gate desk event (some id) mg agent_group_id db).1 ≡ true
unfolding access_gate
gate-open desk event id mg agent_group_id db h named = ground (arith, h, named)

pending-deleted :
    (id : String) (db : CentralDb)
    → get_pending_sender_approval id (delete_pending_sender_approval id db) ≡ none
unfolding get_pending_sender_approval delete_pending_sender_approval
pending-deleted id db =
    not_some (get_pending_sender_approval id (delete_pending_sender_approval id db)) (
      exists-delete_where (λ (r : PendingSenderApproval). str_eq r.id id)
        db.pending_sender_approvals)
  where
    not_some : (o : Option PendingSenderApproval) → is_some o ≡ false → o ≡ none
    not_some none h = refl
    not_some (some r) h = ground (arith, h)

pending-id :
    (id : String) (db : CentralDb) {row : PendingSenderApproval}
    → get_pending_sender_approval id db ≡ some row
    → row.id ≡ id
unfolding get_pending_sender_approval
pending-id id db {row} found =
    (str_eq_iff row.id id).0
      (find-holds (λ (r : PendingSenderApproval). str_eq r.id id) db.pending_sender_approvals found)

approved :
    (now : ℕ) (payload : ResponsePayload) (db : CentralDb) {row : PendingSenderApproval}
    → get_pending_sender_approval payload.question_id db ≡ some row
    → is_authorized row (clicker_id payload) db ≡ true
    → str_eq payload.value "approve" ≡ true
    → handle_sender_approval_response now payload db ≡ record {
      claimed = true;
      central = admit now row (clicker_id payload) db;
      replay = some row.original_message;
    }
unfolding handle_sender_approval_response
approved now payload db found able approve =
    rw (found, handle_sender_approval_response) (rw (able, approve) refl)

-- Once an unknown sender is approved, its row is gone and the access gate lets the sender in, in
-- any chat of the agent group, so that the message that is routed again gets through.
pub access_gate-approved :
    (now : ℕ) (payload : ResponsePayload) (db : CentralDb) (row : PendingSenderApproval)
    (user : User) (desk : ApprovalDesk) (event : InboundEvent) (mg : MessagingGroup)
    → get_pending_sender_approval payload.question_id db ≡ some row
    → is_authorized row (clicker_id payload) db ≡ true
    → str_eq payload.value "approve" ≡ true
    → get_user row.sender_identity db ≡ some user
    → str_eq row.sender_identity "" ≡ false
    → let out = handle_sender_approval_response now payload db in
      (out.replay ≡ some row.original_message)
      × (get_pending_sender_approval payload.question_id out.central ≡ none)
      × ((access_gate desk event (some row.sender_identity) mg row.agent_group_id out.central).1
          ≡ true)
access_gate-approved now payload db row user desk event mg found able approve known named =
    rw (approved now payload db found able approve) (
      refl,
      rw (sym (pending-id payload.question_id db found)) (pending-deleted row.id _),
      gate-open desk event row.sender_identity mg row.agent_group_id _
          (admit-allowed now row (clicker_id payload) db known) named,
    )
