-- ===== src/Approvals/Responses.antt =====
-- src/modules/approvals/response-handler.ts, with the registry of src/modules/approvals/primitive.ts.
use Prim.Native.String.{◌++◌ as str_append}
use clawie.Prelude.{
  ℕ, String, Bool, true, false, not, ◌||◌, Option, none, some, if◌then◌else◌, str_eq, is_one_of,
  delete_where,
}
use clawie.Json.{Value, Content, json, plain}
use clawie.Central.{Session, get_session}
use clawie.SessionManager.{set_at}
use clawie.Permissions.Gates.{ResponsePayload}
use clawie.Approvals.{
  approved, rejected, PendingApproval, ApprovalState, get_pending_approval,
  update_pending_approval_status, delete_pending_approval, Desk, notify, wake,
}

-- What a module does on an approval: the session, the payload, the user who clicked and the state
-- give the state after it, and the message of an exception.
abbrev pub Handler : Type 0
Handler = Session → Value → String → ApprovalState → ApprovalState × Option String

unfoldable pub register_approval_handler :
    String → Handler → (String → Option Handler) → String → Option Handler
register_approval_handler action handler handlers = set_at handlers action (some handler)

-- `resolveOneCLIApproval`, for an id with a promise
unfoldable pub resolve_credential : String → String → ApprovalState → ApprovalState
unfolding update_pending_approval_status delete_pending_approval
resolve_credential id option s = delete_pending_approval id (
    update_pending_approval_status id (if str_eq option "approve" then approved else rejected)
      (record s { waiting = delete_where (λ w. str_eq w id) s.waiting }))

-- the last two statements of every branch that has a session; `none` is an exception before
abbrev pub close : String → Session → Option ApprovalState → Option ApprovalState
close id session none = none
close id session (some s) = some (wake session.id (delete_pending_approval id s))

abbrev pub your : PendingApproval → String → String
your row rest = str_append "Your " (str_append row.action rest)

-- after the handler
abbrev pub reported :
    Desk → ℕ → PendingApproval → Session → ApprovalState × Option String → Option ApprovalState
reported desk now row session (s, none) = some s
reported desk now row session (s, some error) =
    notify desk now session
      (your row (str_append " was approved, but applying it failed: " (str_append error "."))) s

abbrev pub apply_with :
    Desk
    → ℕ
    → PendingApproval
    → Session
    → String
    → Option Handler
    → Content
    → ApprovalState
    → Option ApprovalState
apply_with desk now row session user_id none content s =
    notify desk now session (your row " was approved, but no handler is installed to apply it.") s
apply_with desk now row session user_id (some handler) (plain raw) s = none
apply_with desk now row session user_id (some handler) (json payload) s =
    reported desk now row session (handler session payload user_id s)

abbrev pub session_of_row : Option String → ApprovalState → Option Session
session_of_row none s = none
session_of_row (some id) s = if str_eq id "" then none else get_session id s.host.central

abbrev pub answer_session :
    Desk
    → ℕ
    → (String → Option Handler)
    → PendingApproval
    → String
    → String
    → Option Session
    → ApprovalState
    → Option ApprovalState
answer_session desk now handlers row option user_id none s =
    some (delete_pending_approval row.approval_id s)
answer_session desk now handlers row option user_id (some session) s =
    close row.approval_id session (
      if not (str_eq option "approve")
      then notify desk now session (your row " request was rejected by admin.") s
      else apply_with desk now row session user_id (handlers row.action) row.payload s)

unfoldable pub handle_registered_approval :
    Desk
    → ℕ
    → (String → Option Handler)
    → PendingApproval
    → String
    → String
    → ApprovalState
    → Option ApprovalState
unfolding notify delete_pending_approval get_session
handle_registered_approval desk now handlers row option user_id s =
    answer_session desk now handlers row option user_id (session_of_row row.session_id s) s

abbrev pub claimed : Option ApprovalState → Option (Bool × ApprovalState)
claimed none = none
claimed (some s) = some (true, s)

abbrev pub or_empty : Option String → String
or_empty none = ""
or_empty (some id) = id

abbrev pub answer_row :
    Desk
    → ℕ
    → (String → Option Handler)
    → ResponsePayload
    → Option PendingApproval
    → ApprovalState
    → Option (Bool × ApprovalState)
answer_row desk now handlers payload none s = some (false, s)
answer_row desk now handlers payload (some row) s =
    if str_eq row.action "onecli_credential"
    then some (true, delete_pending_approval payload.question_id s)
    else claimed (
        handle_registered_approval desk now handlers row payload.value (or_empty payload.user_id) s)

-- `handleApprovalsResponse`: whether the click was claimed, and the state; `none` is an exception
unfoldable pub handle_approvals_response :
    Desk
    → ℕ
    → (String → Option Handler)
    → ResponsePayload
    → ApprovalState
    → Option (Bool × ApprovalState)
unfolding resolve_credential get_pending_approval delete_pending_approval handle_registered_approval
handle_approvals_response desk now handlers payload s =
    if is_one_of s.waiting payload.question_id
    then some (true, resolve_credential payload.question_id payload.value s)
    else answer_row desk now handlers payload (get_pending_approval payload.question_id s) s

abbrev pub with_handler :
    PendingApproval
    → Session
    → Option Handler
    → Content
    → Option (PendingApproval × Session × Handler × Value)
with_handler row session none content = none
with_handler row session (some handler) (plain raw) = none
with_handler row session (some handler) (json payload) = some (row, session, handler, payload)

abbrev pub run_of :
    (String → Option Handler)
    → PendingApproval
    → Option Session
    → Option (PendingApproval × Session × Handler × Value)
run_of handlers row none = none
run_of handlers row (some session) = with_handler row session (handlers row.action) row.payload

abbrev pub begin_row :
    (String → Option Handler)
    → ResponsePayload
    → ApprovalState
    → Option PendingApproval
    → Option (PendingApproval × Session × Handler × Value)
begin_row handlers payload s none = none
begin_row handlers payload s (some row) =
    if str_eq row.action "onecli_credential" || not (str_eq payload.value "approve")
    then none
    else run_of handlers row (session_of_row row.session_id s)

-- The two halves of a click that approves, around the await of the handler: the lookups before it,
-- with the row, the session, the handler and the payload, where there are all of them, ...
unfoldable pub begin_response :
    (String → Option Handler)
    → ResponsePayload
    → ApprovalState
    → Option (PendingApproval × Session × Handler × Value)
begin_response handlers payload s =
    if is_one_of s.waiting payload.question_id
    then none
    else begin_row handlers payload s (get_pending_approval payload.question_id s)

-- ... and the note on an exception, the delete and the wake after it
unfoldable pub finish_response :
    Desk → ℕ → PendingApproval → Session → ApprovalState × Option String → Option ApprovalState
finish_response desk now row session outcome =
    close row.approval_id session (reported desk now row session outcome)
