-- ===== src/Approvals/Answered.antt =====
-- What a click that approves applies: the request of src/modules/approvals that it is about.
use mathlib.Core.Path.{subst}
use Prim.Native.String.{◌++◌ as str_append}
use clawie.Prelude.{
  ℕ, String, Bool, true, false, Option, none, some, List, [], ◌∷◌, ◌++◌, ◌≡◌, refl, sym, ap, ◌∙◌,
  inl, inr, is_some, false≢true, str_eq, str_eq_refl, is_one_of, find, find-fresh,
}
use clawie.Central.{Session, get_session}
use clawie.SessionManager.{Host, write_session_message}
use clawie.Permissions.Gates.{ResponsePayload}
use clawie.Approvals.{
  PendingApproval, ApprovalState, queued, get_pending_approval, delete_pending_approval, Desk,
  notify, system_chat, with_host,
}
use clawie.Approvals.Requests.{RequestApprovalOptions, approval_row, request_approval}
use clawie.Approvals.Responses.{
  Handler, close, reported, claimed, or_empty, handle_registered_approval,
  handle_approvals_response,
}
use clawie.Approvals.Asked.{Asks, request_approval-Asks}
use clawie.Approvals.Clicks.{close-gone}

-- What the end of a run leaves: no row of the card, the container of the session woken once more, the
-- databases as they were after the handler or after the note about its exception, and the rest as the
-- handler left it.
pub record Ends (id session_id : String) (host : Host) (ended : ApprovalState)
    (result : Option (Bool × ApprovalState)) : Type 0 where
  pub after : ApprovalState
  pub answers : result ≡ some (true, after)
  pub gone : get_pending_approval id after ≡ none
  pub woken : after.woken ≡ ended.woken ++ session_id ∷ []
  pub databases : after.host ≡ host
  pub waiting : after.waiting ≡ ended.waiting
  pub cards : after.cards ≡ ended.cards

-- an exception of the note's own write is the outcome of the click
abbrev Noted :
    String → String → ApprovalState → Option (Bool × ApprovalState) → Option Host → Type 0
Noted id session_id ended result none = result ≡ none
Noted id session_id ended result (some host) = Ends id session_id host ended result

-- What a click leaves, by the state and the exception that the handler ended with; an exception is
-- told to the agent by a message in the session.
abbrev pub Applied :
    Desk
    → ℕ
    → String
    → String
    → Session
    → ApprovalState × Option String
    → Option (Bool × ApprovalState)
    → Type 0
Applied desk now id action session (ended, none) result = Ends id session.id ended.host ended result
Applied desk now id action session (ended, some error) result = Noted id session.id ended result (
    write_session_message desk.stage now session.id
      (system_chat desk now session (
        str_append "Your " (
          str_append action
            (str_append " was approved, but applying it failed: " (str_append error ".")))))
      ended.host)

close-Ends :
    (id : String) (session : Session) (s ended : ApprovalState)
    → s.woken ≡ ended.woken
    → s.waiting ≡ ended.waiting
    → s.cards ≡ ended.cards
    → Ends id session.id s.host ended (claimed (close id session (some s)))
unfolding delete_pending_approval
close-Ends id session s ended woken waiting cards = record {
  after = _;
  answers = refl;
  gone = close-gone id session s;
  woken = rw woken refl;
  databases = refl;
  waiting = waiting;
  cards = cards;
}

with_host-Noted :
    (id : String) (session : Session) (ended : ApprovalState) (o : Option Host)
    → Noted id session.id ended (claimed (close id session (with_host ended o))) o
with_host-Noted id session ended none = refl
with_host-Noted id session ended (some host) =
    close-Ends id session (record ended { host = host }) ended refl refl refl

reported-Applied :
    (desk : Desk) (now : ℕ) (row : PendingApproval) (session : Session)
    (outcome : ApprovalState × Option String)
    → Applied desk now row.approval_id row.action session outcome
        (claimed (close row.approval_id session (reported desk now row session outcome)))
unfolding notify
reported-Applied desk now row session (ended, none) =
    close-Ends row.approval_id session ended ended refl refl refl
reported-Applied desk now row session (ended, some error) =
    with_host-Noted row.approval_id session ended _

-- What was asked for

queued-found :
    (row : PendingApproval) (rows : List PendingApproval)
    → find (λ (r : PendingApproval). str_eq r.approval_id row.approval_id) rows ≡ none
    → find (λ (r : PendingApproval). str_eq r.approval_id row.approval_id) (queued row rows)
      ≡ some row
queued-found row rows free =
    let is_row : PendingApproval → Bool = λ r. str_eq r.approval_id row.approval_id in
    rw (ap is_some free)
      (find-fresh is_row is_row (λ r h. h) rows row (ap is_some free) (str_eq_refl row.approval_id))

-- the click with which someone approves
abbrev pub approval_by : Option String → String → ResponsePayload
approval_by user_id question_id = record {
  question_id = question_id;
  value = "approve";
  user_id = user_id;
  channel_type = "telegram";
}

module _ (desk later_desk : Desk) (now later : ℕ) (opts : RequestApprovalOptions)
    (handlers : String → Option Handler) (handler : Handler) where
  approved_row :
      (s : ApprovalState) (user_id : Option String)
      → get_pending_approval desk.approval_id s ≡ some (approval_row desk now opts)
      → is_one_of s.waiting desk.approval_id ≡ false
      → str_eq opts.action "onecli_credential" ≡ false
      → str_eq opts.session.id "" ≡ false
      → get_session opts.session.id s.host.central ≡ some opts.session
      → handlers opts.action ≡ some handler
      → handle_approvals_response later_desk later handlers (approval_by user_id desk.approval_id) s
        ≡ claimed (
            close desk.approval_id opts.session (
              reported later_desk later
                (approval_row desk now opts)
                opts.session
                (handler opts.session opts.payload (or_empty user_id) s)))
  unfolding handle_approvals_response handle_registered_approval
  approved_row s user_id row free own named there registered =
      rw (free, row, own, named, there, registered) refl

  asked_row :
      (s after : ApprovalState)
      → Asks desk now opts s (some after)
      → get_pending_approval desk.approval_id s ≡ none
      → is_some (get_pending_approval desk.approval_id after) ≡ true
      → (get_pending_approval desk.approval_id after ≡ some (approval_row desk now opts))
        × (after.waiting ≡ s.waiting)
  unfolding get_pending_approval
  asked_row s after (inl (rows, _)) free waits =
      let is_row : PendingApproval → Bool = λ r. str_eq r.approval_id desk.approval_id in
      absurd (false≢true (sym (ap is_some (ap (find is_row) rows ∙ free)) ∙ waits))
  asked_row s after (inr asked) free waits =
      let is_row : PendingApproval → Bool = λ r. str_eq r.approval_id desk.approval_id in
      (
        ap (find is_row) asked.row
            ∙ queued-found (approval_row desk now opts) s.pending_approvals free,
        asked.waiting,
      )

  -- An approval applies what was asked for. Where a request queued a row under an id that was free,
  -- the session is still there, and the action has a handler and is no credential, a click that
  -- approves, with nothing else in between, hands the request's session and payload to the handler.
  -- Then the row is gone and the session's container is woken once; the databases are as the handler
  -- left them, or, where it ended with an exception, with a message about that to the agent in the
  -- session, unless that write throws.
  pub request_approval-approved :
      (s after : ApprovalState) (user_id : Option String)
      → request_approval desk now opts s ≡ some after
      → str_eq opts.session.agent_group_id "" ≡ false
      → str_eq opts.session.id "" ≡ false
      → str_eq opts.action "onecli_credential" ≡ false
      → get_pending_approval desk.approval_id s ≡ none
      → is_one_of s.waiting desk.approval_id ≡ false
      → is_some (get_pending_approval desk.approval_id after) ≡ true
      → get_session opts.session.id after.host.central ≡ some opts.session
      → handlers opts.action ≡ some handler
      → Applied later_desk later desk.approval_id opts.action opts.session
          (handler opts.session opts.payload (or_empty user_id) after)
          (handle_approvals_response later_desk later handlers
            (approval_by user_id desk.approval_id)
            after)
  request_approval-approved s after user_id e grouped named own free unclaimed waits there
        registered =
      let asks : Asks desk now opts s (some after) =
        subst (Asks desk now opts s) e (request_approval-Asks desk now opts s grouped) in
      let (row, waiting) = asked_row s after asks free waits in
      rw
        (approved_row after user_id row (ap (λ w. is_one_of w desk.approval_id) waiting ∙ unclaimed)
          own named there registered)
        (reported-Applied later_desk later (approval_row desk now opts) opts.session
          (handler opts.session opts.payload (or_empty user_id) after))
