-- ===== src/Approvals/Clicks.antt =====
-- What a click on a card of src/modules/approvals leaves of the card, and clicks that come while its
-- handler is awaited and after it has ended.
use mathlib.Core.Path.{subst}
use mathlib.Core.Option.{some-injective}
use clawie.Json.{Value, Content, json, plain}
use clawie.Prelude.{
  ℕ, String, Bool, true, false, not, Option, none, some, ◌≡◌, refl, sym, ap, if-intro,
  if◌then◌else◌, is_some, false≢true, str_eq, str_eq_iff, is_one_of, find, find-holds, delete_where,
  exists-delete_where, ◌||◌, arith,
}
use clawie.Central.{Session}
use clawie.Permissions.Gates.{ResponsePayload}
use clawie.Approvals.{
  approved, rejected, PendingApproval, ApprovalState, get_pending_approval, delete_pending_approval,
  update_pending_approval_status, Desk, notify, wake,
}
use clawie.Approvals.Responses.{
  Handler, resolve_credential, close, reported, apply_with, session_of_row, answer_session,
  handle_registered_approval, claimed, your, or_empty, answer_row, handle_approvals_response,
  begin_response, finish_response, begin_row, run_of, with_handler,
}

none_of : {A : Type 0} (o : Option A) → is_some o ≡ false → o ≡ none
none_of none e = refl
none_of (some x) e = absurd (false≢true (sym e))

pub delete_pending_approval-gone :
    (id : String) (s : ApprovalState)
    → get_pending_approval id (delete_pending_approval id s) ≡ none
unfolding delete_pending_approval get_pending_approval
delete_pending_approval-gone id s =
    let is_row : PendingApproval → Bool = λ r. str_eq r.approval_id id in
    none_of (find is_row (delete_where is_row s.pending_approvals))
      (exists-delete_where is_row s.pending_approvals)

-- a click that was claimed leaves no row of its card
abbrev Spent : String → Option (Bool × ApprovalState) → Type 0
Spent id none = Unit
Spent id (some (false, s)) = Unit
Spent id (some (true, s)) = get_pending_approval id s ≡ none

close-Spent :
    (id : String) (session : Session) (o : Option ApprovalState)
    → Spent id (claimed (close id session o))
unfolding get_pending_approval delete_pending_approval
close-Spent id session none = tt
close-Spent id session (some s) = delete_pending_approval-gone id s

answer_session-Spent :
    (desk : Desk) (now : ℕ) (handlers : String → Option Handler) (row : PendingApproval)
    (option user_id : String) (o : Option Session) (s : ApprovalState)
    → Spent row.approval_id (claimed (answer_session desk now handlers row option user_id o s))
answer_session-Spent desk now handlers row option user_id none s =
    delete_pending_approval-gone row.approval_id s
answer_session-Spent desk now handlers row option user_id (some session) s =
    close-Spent row.approval_id session (
      if not (str_eq option "approve")
      then notify desk now session (your row " request was rejected by admin.") s
      else apply_with desk now row session user_id (handlers row.action) row.payload s)

answer_row-Spent :
    (desk : Desk) (now : ℕ) (handlers : String → Option Handler) (payload : ResponsePayload)
    (o : Option PendingApproval) (s : ApprovalState)
    → get_pending_approval payload.question_id s ≡ o
    → Spent payload.question_id (answer_row desk now handlers payload o s)
unfolding get_pending_approval handle_registered_approval
answer_row-Spent desk now handlers payload none s e = tt
answer_row-Spent desk now handlers payload (some row) s e =
    if-intro (Spent payload.question_id) (str_eq row.action "onecli_credential")
      (λ _. delete_pending_approval-gone payload.question_id s)
      (λ _.
        subst
          (λ id. Spent id (
            claimed (
              handle_registered_approval desk now handlers row payload.value
                (or_empty payload.user_id) s)))
          ((str_eq_iff row.approval_id payload.question_id).0 (
            find-holds (λ (r : PendingApproval). str_eq r.approval_id payload.question_id)
              s.pending_approvals e))
          (answer_session-Spent desk now handlers row payload.value (or_empty payload.user_id)
            (session_of_row row.session_id s) s))

handle_approvals_response-Spent :
    (desk : Desk) (now : ℕ) (handlers : String → Option Handler) (payload : ResponsePayload)
    (s : ApprovalState)
    → Spent payload.question_id (handle_approvals_response desk now handlers payload s)
unfolding handle_approvals_response resolve_credential
handle_approvals_response-Spent desk now handlers payload s =
    if-intro (Spent payload.question_id) (is_one_of s.waiting payload.question_id)
      (λ _. delete_pending_approval-gone payload.question_id (
        update_pending_approval_status payload.question_id
          (if str_eq payload.value "approve" then approved else rejected)
          (record s { waiting = delete_where (λ w. str_eq w payload.question_id) s.waiting })))
      (λ _.
        answer_row-Spent desk now handlers payload (get_pending_approval payload.question_id s) s
          refl)

-- Whatever the answer to a later click on a card without a row says, it is not claimed.
unclaimed :
    (desk : Desk) (now : ℕ) (handlers : String → Option Handler) (next : ResponsePayload)
    (id : String) (s : ApprovalState)
    → next.question_id ≡ id
    → get_pending_approval id s ≡ none
    → is_one_of s.waiting id ≡ false
    → handle_approvals_response desk now handlers next s ≡ some (false, s)
unfolding handle_approvals_response
unclaimed desk now handlers next id s same gone free = rw (same, free, gone) refl

-- What the lookups before a handler found.
pub record IsBegun (handlers : String → Option Handler) (payload : ResponsePayload)
    (s : ApprovalState) (row : PendingApproval) (session : Session) (handler : Handler)
    (value : Value) : Type 0 where
  pub free : is_one_of s.waiting payload.question_id ≡ false
  pub found : get_pending_approval payload.question_id s ≡ some row
  pub named : row.approval_id ≡ payload.question_id
  pub own : str_eq row.action "onecli_credential" ≡ false
  pub approves : str_eq payload.value "approve" ≡ true
  pub there : session_of_row row.session_id s ≡ some session
  pub registered : handlers row.action ≡ some handler
  pub parsed : row.payload ≡ json value

module _ (handlers : String → Option Handler) (payload : ResponsePayload) (s : ApprovalState)
    {row : PendingApproval} {session : Session} {handler : Handler} {value : Value} where
  with_handler-IsBegun :
      (r : PendingApproval) (n : Session) (o : Option Handler) (content : Content)
      → is_one_of s.waiting payload.question_id ≡ false
      → get_pending_approval payload.question_id s ≡ some r
      → str_eq r.action "onecli_credential" ≡ false
      → str_eq payload.value "approve" ≡ true
      → session_of_row r.session_id s ≡ some n
      → handlers r.action ≡ o
      → r.payload ≡ content
      → with_handler r n o content ≡ some (row, session, handler, value)
      → IsBegun handlers payload s row session handler value
  unfolding get_pending_approval
  with_handler-IsBegun r n none content free found own approves there registered parsed e =
      absurd (false≢true (ap is_some e))
  with_handler-IsBegun r n (some h) (plain raw) free found own approves there registered parsed e =
      absurd (false≢true (ap is_some e))
  with_handler-IsBegun r n (some h) (json v) free found own approves there registered parsed e =
      subst
        (λ (x : PendingApproval × Session × Handler × Value).
          IsBegun handlers payload s x.0 x.1 x.2 x.3)
        (some-injective (r, n, h, v) (row, session, handler, value) e)
        (record {
          free = free;
          found = found;
          named = (str_eq_iff r.approval_id payload.question_id).0 (
              find-holds (λ (x : PendingApproval). str_eq x.approval_id payload.question_id)
                s.pending_approvals found);
          own = own;
          approves = approves;
          there = there;
          registered = registered;
          parsed = parsed;
        })

  run_of-IsBegun :
      (r : PendingApproval) (o : Option Session)
      → is_one_of s.waiting payload.question_id ≡ false
      → get_pending_approval payload.question_id s ≡ some r
      → str_eq r.action "onecli_credential" ≡ false
      → str_eq payload.value "approve" ≡ true
      → session_of_row r.session_id s ≡ o
      → run_of handlers r o ≡ some (row, session, handler, value)
      → IsBegun handlers payload s row session handler value
  run_of-IsBegun r none free found own approves there e = absurd (false≢true (ap is_some e))
  run_of-IsBegun r (some n) free found own approves there e =
      with_handler-IsBegun r n (handlers r.action) r.payload free found own approves there refl refl
        e

  begin_row-IsBegun :
      (o : Option PendingApproval)
      → is_one_of s.waiting payload.question_id ≡ false
      → get_pending_approval payload.question_id s ≡ o
      → begin_row handlers payload s o ≡ some (row, session, handler, value)
      → IsBegun handlers payload s row session handler value
  begin_row-IsBegun none free found e = absurd (false≢true (ap is_some e))
  begin_row-IsBegun (some r) free found e =
      if-intro
        (λ (o : Option (PendingApproval × Session × Handler × Value)).
          o ≡ some (row, session, handler, value)
          → IsBegun handlers payload s row session handler value)
        (str_eq r.action "onecli_credential" || not (str_eq payload.value "approve"))
        (λ _ e'. absurd (false≢true (ap is_some e')))
        (λ applies e'.
          run_of-IsBegun r (session_of_row r.session_id s) free found (ground (arith, applies))
            (ground (arith, applies)) refl e')
        e

  begin_response-IsBegun :
      begin_response handlers payload s ≡ some (row, session, handler, value)
      → IsBegun handlers payload s row session handler value
  unfolding begin_response
  begin_response-IsBegun e =
      if-intro
        (λ (o : Option (PendingApproval × Session × Handler × Value)).
          o ≡ some (row, session, handler, value)
          → IsBegun handlers payload s row session handler value)
        (is_one_of s.waiting payload.question_id) (λ _ e'. absurd (false≢true (ap is_some e')))
        (λ free e'. begin_row-IsBegun (get_pending_approval payload.question_id s) free refl e') e

pub close-gone :
    (id : String) (session : Session) (s : ApprovalState)
    → get_pending_approval id (wake session.id (delete_pending_approval id s)) ≡ none
unfolding get_pending_approval delete_pending_approval
close-gone id session s = delete_pending_approval-gone id s

finish_response-gone :
    (desk : Desk) (now : ℕ) (row : PendingApproval) (session : Session)
    (outcome : ApprovalState × Option String) {u : ApprovalState}
    → finish_response desk now row session outcome ≡ some u
    → get_pending_approval row.approval_id u ≡ none
unfolding finish_response
finish_response-gone desk now row session outcome {u} e =
    closed (reported desk now row session outcome) e
  where
    closed :
        (o : Option ApprovalState)
        → close row.approval_id session o ≡ some u
        → get_pending_approval row.approval_id u ≡ none
    closed none e' = absurd (false≢true (ap is_some e'))
    closed (some t) e' =
        subst (λ x. get_pending_approval row.approval_id x ≡ none)
          (some-injective (wake session.id (delete_pending_approval row.approval_id t)) u e')
          (close-gone row.approval_id session t)

-- A click that finds all that it needs begins a run of the handler. Until that run has ended, a click
-- that approves, from any state in which the row and the session are still found, begins a run of the
-- same handler with the same session and payload. Whatever state and exception the handler ends
-- with, once its end is recorded a click on the card is not claimed and changes nothing, where no
-- credential approval waits under its id. The click alone does what its two halves do.
pub begin_response-ends :
    (desk later_desk : Desk) (now later : ℕ) (handlers : String → Option Handler)
    (payload again : ResponsePayload) (s during ended after : ApprovalState) (error : Option String)
    (row : PendingApproval) (session : Session) (handler : Handler) (value : Value)
    → begin_response handlers payload s ≡ some (row, session, handler, value)
    → again.question_id ≡ payload.question_id
    → again.value ≡ "approve"
    → is_one_of during.waiting payload.question_id ≡ false
    → get_pending_approval payload.question_id during ≡ some row
    → session_of_row row.session_id during ≡ some session
    → finish_response desk now row session (ended, error) ≡ some after
    → is_one_of after.waiting payload.question_id ≡ false
    → (begin_response handlers again during ≡ some (row, session, handler, value))
      × (handle_approvals_response later_desk later handlers again after ≡ some (false, after))
      × (handle_approvals_response desk now handlers payload s
          ≡ claimed (
              finish_response desk now row session
                (handler session value (or_empty payload.user_id) s)))
unfolding begin_response handle_approvals_response handle_registered_approval finish_response
begin_response-ends desk later_desk now later handlers payload again s during ended after error row
      session handler value begun same approving free found there over clear =
    let b = begin_response-IsBegun handlers payload s begun in
    (
      rw (same, free, found, b.own, approving, there, b.registered, b.parsed) refl,
      unclaimed later_desk later handlers again payload.question_id after same
          (subst (λ id. get_pending_approval id after ≡ none) b.named
            (finish_response-gone desk now row session (ended, error) over))
          clear,
      rw (b.free, b.found, b.own, b.there, b.approves, b.registered, b.parsed) refl,
    )
