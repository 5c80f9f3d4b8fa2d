-- ===== src/Delivery/Access.antt =====
-- Which sends a drain makes: only to a chat that the session's agent may deliver to.
use clawie.Prelude.{
  ℕ, String, ◌≡◌, refl, true, inl, inr, Option, List, [], ◌∷◌, All, All-append, Bool-cases,
  Option-cases, leb, ◌+◌,
}
use clawie.SessionDb.{OutboundDb, MessageOut}
use clawie.Central.{CentralDb, Session, get_agent_group}
use clawie.Delivery.{
  DeliveryState, Outside, Sent, Outcome, done, threw, may_deliver, deliver_message, drain_message,
  drain_messages, drain_session, undelivered, settle, max_delivery_attempts,
}
use clawie.Delivery.Effect.{Frame, Effect, deliver_message-effect}

-- The bookkeeping after a delivery sends nothing.
pub settle-sent :
    (id : String) (s : DeliveryState) (outcome : Outcome) → (settle id s outcome).sent ≡ s.sent
unfolding settle
settle-sent id s (done platform_msg_id) = refl
settle-sent id s threw = elim (Bool-cases (leb max_delivery_attempts (s.attempts id + 1))) [
  | inl e ↦ rw e refl
  | inr e ↦ rw e refl
]

module _ (adapter : Option Outside) (central : CentralDb) (session : Session) where
  -- What delivering a message does, whatever becomes of it.
  pub deliver_message-cases :
      (msg : MessageOut) (s : DeliveryState)
      → Frame adapter s (deliver_message adapter central session msg s).0
        × Effect central session msg s (deliver_message adapter central session msg s).0
  unfolding deliver_message
  deliver_message-cases msg s = elim (Option-cases adapter) [
    | inl e ↦
        rw (e, deliver_message) ((record { attempts = refl; delivered = λ keeps. refl }, inl refl))
    | inr (outside, e) ↦
        rw (e, deliver_message) (deliver_message-effect outside central session msg s)
  ]

  abbrev IsPermitted : Sent → Type 0
  IsPermitted x = may_deliver central session x.channel_type x.platform_id ≡ true

  drain_message-IsPermitted :
      (msg : MessageOut) (s : DeliveryState)
      → All IsPermitted s.sent
      → All IsPermitted (drain_message adapter central session msg s).sent
  unfolding drain_message
  drain_message-IsPermitted msg s h =
      let (t, outcome) = deliver_message adapter central session msg s in
      rw (settle-sent msg.id t outcome) (elim (deliver_message-cases msg s).1 [
        | inl e ↦ rw e h
        | inr (x, named, ok, e) ↦ rw e (All-append IsPermitted s.sent (x ∷ []) h (ok, tt))
      ])

  drain_messages-IsPermitted :
      (msgs : List MessageOut) (s : DeliveryState)
      → All IsPermitted s.sent
      → All IsPermitted (drain_messages adapter central session msgs s).sent
  unfolding drain_messages
  drain_messages-IsPermitted [] s h = h
  drain_messages-IsPermitted (msg ∷ rest) s h =
      drain_messages-IsPermitted rest (drain_message adapter central session msg s)
        (drain_message-IsPermitted msg s h)

  -- Whatever a drain gives the channel adapter to send, for whatever messages the container
  -- wrote, goes to the chat that the session came from or to one that its agent group has a
  -- destination for, where destinations are kept.
  pub drain_session-permitted :
      (now : ℕ) (out_db : OutboundDb) (s : DeliveryState)
      → All (λ (x : Sent). may_deliver central session x.channel_type x.platform_id ≡ true) s.sent
      → All
          (λ (x : Sent). may_deliver central session x.channel_type x.platform_id ≡ true)
          (drain_session now adapter central session out_db s).sent
  unfolding drain_session
  drain_session-permitted now out_db s h =
      elim (Option-cases (get_agent_group session.agent_group_id central)) [
        | inl e ↦ rw (e, drain_session) h
        | inr (group, e) ↦
            rw (e, drain_session)
              (drain_messages-IsPermitted (undelivered now out_db s.inbound) s h)
      ]
