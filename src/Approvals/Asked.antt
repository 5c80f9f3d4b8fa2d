-- ===== src/Approvals/Asked.antt =====
-- Whom src/modules/approvals/primitive.ts asks to approve an action.
use mathlib.Core.Path.{subst}
use Prim.Native.String.{◌++◌ as str_append}
use clawie.Prelude.{
  ℕ, String, true, false, Option, none, some, List, [], ◌∷◌, ◌++◌, ◌≡◌, refl, sym, ◌∙◌, inl, inr,
  ◌⊎◌, if-intro, is_some, str_eq,
}
use clawie.Central.{Session, MessagingGroup, get_session}
use clawie.SessionManager.{Host, write_session_message}
use clawie.Permissions.{pick_approver, has_admin_privilege}
use clawie.Permissions.Approvers.{pick_approver_lem}
use clawie.UserDm.{DirectChats}
use clawie.Approvals.{
  ApprovalState, queued, create_pending_approval, Target, pick_approval_delivery, Delivers,
  no_adapter, throws, delivers, Desk, notify, notify_agent, system_chat, with_host, wake_if_there,
}
use clawie.Approvals.Requests.{
  RequestApprovalOptions, origin_channel_type, approval_row, card_of, chats_of, with_chats, failed,
  send_card, ask_target, ask_one_of, request_approval,
}
use clawie.Approvals.Reached.{IsReached, Reaches, pick_approval_delivery-Reaches}

-- what a request that asks someone leaves
pub record IsAsked (desk : Desk) (now : ℕ) (opts : RequestApprovalOptions) (s after : ApprovalState)
    : Type 0 where
  pub user_id : String
  pub mg : MessagingGroup
  pub chats : DirectChats
  pub administers : has_admin_privilege user_id opts.session.agent_group_id s.host.central ≡ true
  pub reached :
      IsReached desk.platforms desk.again now
        (pick_approver (some opts.session.agent_group_id) s.host.central)
        (chats_of s)
        chats
        user_id
        mg
  pub row : after.pending_approvals ≡ queued (approval_row desk now opts) s.pending_approvals
  pub card : (after.cards ≡ s.cards) ⊎ (after.cards ≡ s.cards ++ card_of desk opts mg ∷ [])
  pub waiting : after.waiting ≡ s.waiting
  pub found_chats : after.user_dms ≡ chats.user_dms

-- what a request leaves: it asks nobody, or one who administers the agent group
abbrev pub Asks : Desk → ℕ → RequestApprovalOptions → ApprovalState → Option ApprovalState → Type 0
Asks desk now opts s none = Unit
Asks desk now opts s (some after) =
    ((after.pending_approvals ≡ s.pending_approvals) × (after.cards ≡ s.cards))
    ⊎ IsAsked desk now opts s after

-- a message to the agent touches neither rows nor cards
abbrev Untouched : ApprovalState → Option ApprovalState → Type 0
Untouched s none = Unit
Untouched s (some after) =
    (after.pending_approvals ≡ s.pending_approvals)
    × (after.cards ≡ s.cards)
    × (after.waiting ≡ s.waiting)
    × (after.user_dms ≡ s.user_dms)

wake_if_there-Untouched :
    (session : Session) (s : ApprovalState) (o : Option Host)
    → Untouched s (wake_if_there session (with_host s o))
wake_if_there-Untouched session s none = tt
wake_if_there-Untouched session s (some host) =
    if-intro (Untouched s) (is_some (get_session session.id host.central))
      (λ _. (refl, refl, refl, refl)) (λ _. (refl, refl, refl, refl))

notify_agent-Untouched :
    (desk : Desk) (now : ℕ) (session : Session) (words : String) (s : ApprovalState)
    → Untouched s (notify_agent desk now session words s)
unfolding notify_agent notify
notify_agent-Untouched desk now session words s =
    wake_if_there-Untouched session s
      (write_session_message desk.stage now session.id (system_chat desk now session words) s.host)

Untouched-Asks :
    (desk : Desk) (now : ℕ) (opts : RequestApprovalOptions) (s t : ApprovalState)
    (o : Option ApprovalState)
    → t.pending_approvals ≡ s.pending_approvals
    → t.cards ≡ s.cards
    → Untouched t o
    → Asks desk now opts s o
Untouched-Asks desk now opts s t none rows cards h = tt
Untouched-Asks desk now opts s t (some after) rows cards h = inl (h.0 ∙ rows, h.1 ∙ cards)

module _ (desk : Desk) (now : ℕ) (opts : RequestApprovalOptions) (s : ApprovalState) where
  asked-quietly :
      (t : ApprovalState) (o : Option ApprovalState) (chats : DirectChats) (user_id : String)
      (mg : MessagingGroup)
      → has_admin_privilege user_id opts.session.agent_group_id s.host.central ≡ true
      → IsReached desk.platforms desk.again now
          (pick_approver (some opts.session.agent_group_id) s.host.central)
          (chats_of s)
          chats
          user_id
          mg
      → t.pending_approvals ≡ queued (approval_row desk now opts) s.pending_approvals
      → t.cards ≡ s.cards
      → t.waiting ≡ s.waiting
      → t.user_dms ≡ chats.user_dms
      → Untouched t o
      → Asks desk now opts s o
  asked-quietly t none chats user_id mg admin reached row card waiting dms h = tt
  asked-quietly t (some after) chats user_id mg admin reached row card waiting dms h = inr (record {
    user_id = user_id;
    mg = mg;
    chats = chats;
    administers = admin;
    reached = reached;
    row = h.0 ∙ row;
    card = inl (h.1 ∙ card);
    waiting = h.2 ∙ waiting;
    found_chats = h.3 ∙ dms;
  })

  send_card-Asks :
      (chats : DirectChats) (user_id : String) (mg : MessagingGroup) (d : Delivers)
      → has_admin_privilege user_id opts.session.agent_group_id s.host.central ≡ true
      → IsReached desk.platforms desk.again now
          (pick_approver (some opts.session.agent_group_id) s.host.central)
          (chats_of s)
          chats
          user_id
          mg
      → Asks desk now opts s (
          send_card desk now opts user_id mg d
            (create_pending_approval (approval_row desk now opts) (with_chats chats s)))
  unfolding create_pending_approval
  send_card-Asks chats user_id mg no_adapter admin reached =
      let t = create_pending_approval (approval_row desk now opts) (with_chats chats s) in
      asked-quietly t (some t) chats user_id mg admin reached refl refl refl refl
        (refl, refl, refl, refl)
  send_card-Asks chats user_id mg throws admin reached =
      let t = create_pending_approval (approval_row desk now opts) (with_chats chats s) in
      let words =
        failed opts
          (str_append "could not deliver approval request to " (str_append user_id ".")) in
      asked-quietly t (notify_agent desk now opts.session words t) chats user_id mg admin reached
        refl refl refl refl (notify_agent-Untouched desk now opts.session words t)
  send_card-Asks chats user_id mg delivers admin reached = inr (record {
    user_id = user_id;
    mg = mg;
    chats = chats;
    administers = admin;
    reached = reached;
    row = refl;
    card = inr refl;
    waiting = refl;
    found_chats = refl;
  })

  ask_target-Asks :
      (t : Target)
      → str_eq opts.session.agent_group_id "" ≡ false
      → Reaches desk.platforms desk.again now
          (pick_approver (some opts.session.agent_group_id) s.host.central)
          (chats_of s)
          t
      → Asks desk now opts s (ask_target desk now opts t s)
  ask_target-Asks none named h = tt
  ask_target-Asks (some (chats, none)) named h =
      let t = with_chats chats s in
      let words = failed opts "no DM channel found for any eligible approver." in
      Untouched-Asks desk now opts s t (notify_agent desk now opts.session words t) refl refl
        (notify_agent-Untouched desk now opts.session words t)
  ask_target-Asks (some (chats, some (user_id, mg))) named h =
      send_card-Asks chats user_id mg desk.delivery
        (sym (pick_approver_lem user_id s.host.central opts.session.agent_group_id named).0
          ∙ h.listed)
        h

  ask_one_of-Asks :
      (approvers : List String)
      → pick_approver (some opts.session.agent_group_id) s.host.central ≡ approvers
      → str_eq opts.session.agent_group_id "" ≡ false
      → Asks desk now opts s (ask_one_of desk now opts approvers s)
  ask_one_of-Asks [] e named =
      let words = failed opts "no owner or admin configured to approve." in
      Untouched-Asks desk now opts s s (notify_agent desk now opts.session words s) refl refl
        (notify_agent-Untouched desk now opts.session words s)
  ask_one_of-Asks (first ∷ others) e named =
      let t =
        pick_approval_delivery desk.platforms desk.again now (first ∷ others)
          (origin_channel_type opts.session s.host.central) (chats_of s) in
      ask_target-Asks t named (
        subst (λ l. Reaches desk.platforms desk.again now l (chats_of s) t) (sym e)
          (pick_approval_delivery-Reaches desk.platforms desk.again now (first ∷ others)
            (origin_channel_type opts.session s.host.central) (chats_of s)))

  -- A request for an agent group with an id, unless it throws, leaves rows and cards alone, or it
  -- queues a row with the action and the payload, where its id is free, and sends one card at most.
  -- The card goes to the chat that was found for a user who administers the agent group, with the
  -- tables and the cached chats that the request began with, but for what tries of users who
  -- administer it too, and were not reached, had added to them.
  pub request_approval-Asks :
      str_eq opts.session.agent_group_id "" ≡ false
      → Asks desk now opts s (request_approval desk now opts s)
  unfolding request_approval
  request_approval-Asks named =
      ask_one_of-Asks (pick_approver (some opts.session.agent_group_id) s.host.central) refl named
