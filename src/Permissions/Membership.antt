-- ===== src/Permissions/Membership.antt =====
-- Whom the answer to a card makes a member.
use clawie.Prelude.{
  ℕ, String, ◌≡◌, ◌⊎◌, refl, sym, ap, ◌∙◌, Bool, true, false, ◌&&◌, ◌||◌, Option, some, inl, inr,
  arith, str_eq, str_eq_iff, Bool-cases, Option-cases, false≢true,
}
use clawie.Central.{CentralDb, PendingSenderApproval}
use clawie.Permissions.{has_membership_row}
use clawie.Permissions.Access.{has_membership_row-add_member}
use clawie.Permissions.Gates.{
  ResponsePayload, delete_pending_sender_approval, get_pending_sender_approval, clicker_id,
  is_authorized, admit, handle_sender_approval_response,
}

-- What an answer does to the tables: nothing, an approval, or a refusal.
pub response-cases :
    (now : ℕ) (payload : ResponsePayload) (db : CentralDb)
    → ((handle_sender_approval_response now payload db).central ≡ db)
      ⊎ ((row : PendingSenderApproval) × (get_pending_sender_approval payload.question_id db
            ≡ some row)
          × (is_authorized row (clicker_id payload) db ≡ true)
          × ((str_eq payload.value "approve" ≡ true)
                × ((handle_sender_approval_response now payload db).central
                    ≡ admit now row (clicker_id payload) db)
              ⊎ ((handle_sender_approval_response now payload db).central
                  ≡ delete_pending_sender_approval row.id db)))
unfolding handle_sender_approval_response
response-cases now payload db =
    elim (Option-cases (get_pending_sender_approval payload.question_id db)) [
      | inl e ↦ inl (rw (e, handle_sender_approval_response) refl)
      | inr (row, e) ↦ elim (Bool-cases (is_authorized row (clicker_id payload) db)) [
        | inr unable ↦ inl (rw (e, handle_sender_approval_response) (rw unable refl))
        | inl able ↦ elim (Bool-cases (str_eq payload.value "approve")) [
          | inl approve ↦ inr (
            row,
            e,
            able,
            inl (approve, rw (e, handle_sender_approval_response) (rw (able, approve) refl)),
          )
          | inr reject ↦
              inr (
                row,
                e,
                able,
                inr (rw (e, handle_sender_approval_response) (rw (able, reject) refl)),
              )
        ]
      ]
    ]

pub members-delete :
    (id : String) (db : CentralDb) (user_id agent_group_id : String)
    → has_membership_row user_id agent_group_id (delete_pending_sender_approval id db)
      ≡ has_membership_row user_id agent_group_id db
unfolding has_membership_row delete_pending_sender_approval
members-delete id db user_id agent_group_id = refl

pub admit-members :
    (now : ℕ) (row : PendingSenderApproval) (approver : Option String) (db : CentralDb)
    (user_id agent_group_id : String)
    → has_membership_row user_id agent_group_id (admit now row approver db) ≡ (
        has_membership_row user_id agent_group_id db
        || str_eq row.sender_identity user_id && str_eq row.agent_group_id agent_group_id)
admit-members now row approver db user_id agent_group_id =
    members-delete row.id _ user_id agent_group_id
    ∙ has_membership_row-add_member _ db user_id agent_group_id

or_and : {a b c : Bool} → a ≡ false → (a || b && c) ≡ true → (b ≡ true) × (c ≡ true)
or_and {a} {b} {c} h e = ground (arith, h, e)

-- A card's answer gives a membership only where someone who may answer it approved, and only to
-- the sender and for the agent group of the card's row.
pub handle_sender_approval_response-members :
    (now : ℕ) (payload : ResponsePayload) (db : CentralDb) (user_id agent_group_id : String)
    → has_membership_row user_id agent_group_id db ≡ false
    → has_membership_row user_id agent_group_id
        (handle_sender_approval_response now payload db).central
      ≡ true
    → (row : PendingSenderApproval) × (get_pending_sender_approval payload.question_id db
        ≡ some row)
      × (is_authorized row (clicker_id payload) db ≡ true)
      × (str_eq payload.value "approve" ≡ true)
      × (row.sender_identity ≡ user_id)
      × (row.agent_group_id ≡ agent_group_id)
handle_sender_approval_response-members now payload db user_id agent_group_id before after =
    elim (response-cases now payload db) [
      | inl e ↦ absurd (false≢true (sym before ∙ (sym (ap has e) ∙ after)))
      | inr (row, e, able, inr gone) ↦ absurd (
          false≢true (
            sym before
            ∙ (sym (members-delete row.id db user_id agent_group_id)
                ∙ (sym (ap has gone) ∙ after))))
      | inr (row, e, able, inl (approve, admitted)) ↦
          let listed =
            sym (admit-members now row (clicker_id payload) db user_id agent_group_id)
            ∙ (sym (ap has admitted) ∙ after) in
          let (u, g) = or_and before listed in
          (
            row,
            e,
            able,
            approve,
            (str_eq_iff row.sender_identity user_id).0 u,
            (str_eq_iff row.agent_group_id agent_group_id).0 g,
          )
    ]
  where
    has : CentralDb → Bool
    has d = has_membership_row user_id agent_group_id d
