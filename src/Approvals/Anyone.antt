-- ===== src/Approvals/Anyone.antt =====
-- Whose clicks src/modules/approvals/response-handler.ts takes.
use clawie.Prelude.{
  ℕ, String, true, not, Option, none, some, ◌≡◌, refl, ap, if◌then◌else◌, str_eq, is_one_of,
}
use clawie.Json.{Value, Content, json, plain}
use clawie.Central.{Session}
use clawie.Permissions.Gates.{ResponsePayload}
use clawie.Approvals.{
  PendingApproval, ApprovalState, get_pending_approval, delete_pending_approval, Desk, notify,
}
use clawie.Approvals.Responses.{
  Handler, close, apply_with, session_of_row, answer_session, handle_registered_approval, your,
  claimed, or_empty, answer_row, handle_approvals_response, resolve_credential,
}

-- a handler that does not read who clicked
abbrev pub Run : Type 0
Run = Session → Value → ApprovalState → ApprovalState × Option String

abbrev pub without_user : Option Run → Option Handler
without_user none = none
without_user (some run) = some (λ session payload user_id s. run session payload s)

module _ (desk : Desk) (now : ℕ) (runs : String → Option Run) where
  apply_with-anyone :
      (row : PendingApproval) (session : Session) (u v : String) (o : Option Run)
      (content : Content) (s : ApprovalState)
      → apply_with desk now row session u (without_user o) content s
        ≡ apply_with desk now row session v (without_user o) content s
  apply_with-anyone row session u v none content s = refl
  apply_with-anyone row session u v (some run) (plain raw) s = refl
  apply_with-anyone row session u v (some run) (json payload) s = refl

  answer_session-anyone :
      (row : PendingApproval) (option u v : String) (o : Option Session) (s : ApprovalState)
      → answer_session desk now (λ a. without_user (runs a)) row option u o s
        ≡ answer_session desk now (λ a. without_user (runs a)) row option v o s
  answer_session-anyone row option u v none s = refl
  answer_session-anyone row option u v (some session) s = ap (close row.approval_id session) (
      ap
        (λ applied.
          if not (str_eq option "approve")
          then notify desk now session (your row " request was rejected by admin.") s
          else applied)
        (apply_with-anyone row session u v (runs row.action) row.payload s))

  answer_row-anyone :
      (payload : ResponsePayload) (user_id : Option String) (o : Option PendingApproval)
      (s : ApprovalState)
      → answer_row desk now (λ a. without_user (runs a)) (record payload { user_id = user_id }) o s
        ≡ answer_row desk now (λ a. without_user (runs a)) payload o s
  unfolding handle_registered_approval
  answer_row-anyone payload user_id none s = refl
  answer_row-anyone payload user_id (some row) s =
      ap
        (λ answered.
          if str_eq row.action "onecli_credential"
          then some (true, delete_pending_approval payload.question_id s)
          else claimed answered)
        (answer_session-anyone row payload.value (or_empty user_id) (or_empty payload.user_id)
          (session_of_row row.session_id s) s)

  -- The handler of clicks does not ask who clicked: with handlers of actions that do not read it
  -- either, a click on a card does the same, whoever it is from, an approval as well.
  pub handle_approvals_response-anyone :
      (payload : ResponsePayload) (user_id : Option String) (s : ApprovalState)
      → handle_approvals_response desk now
          (λ a. without_user (runs a))
          (record payload { user_id = user_id })
          s
        ≡ handle_approvals_response desk now (λ a. without_user (runs a)) payload s
  unfolding handle_approvals_response
  handle_approvals_response-anyone payload user_id s =
      ap
        (λ answered.
          if is_one_of s.waiting payload.question_id
          then some (true, resolve_credential payload.question_id payload.value s)
          else answered)
        (answer_row-anyone payload user_id (get_pending_approval payload.question_id s) s)
