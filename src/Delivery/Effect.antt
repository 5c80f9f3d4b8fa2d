-- ===== src/Delivery/Effect.antt =====
-- What `deliverMessage` of src/delivery.ts does to the state, on every branch.
use clawie.Prelude.{
  String, ◌≡◌, refl, sym, ◌∙◌, Bool, true, ◌⊎◌, inl, inr, Option, none, some, [], ◌∷◌, ◌++◌, arith,
  Bool-cases, Option-cases, is_some, str_eq, if◌then◌else◌, sql_eq, if-intro, ◌&&◌,
}
use clawie.Json.{
  Value, null, boolean, number, text, array, object, json, plain, get, as_string, Content,
}
use clawie.SessionDb.{InboundDb, MessageOut}
use clawie.Central.{CentralDb, Session}
use clawie.Delivery.{
  DeliveryState, Outside, Sent, Outcome, done, threw, non_empty, may_deliver, origin_group,
  track_question, send_message, track_and_send, is_permitted, deliver_to_channel,
  handle_system_action, deliver_message, account_of, send_if_addressed,
}

-- The handlers of system actions leave the record of deliveries alone.
abbrev pub KeepsDelivered : Outside → Type 0
KeepsDelivered outside =
    (action : String) (handler : Value → InboundDb → InboundDb × Bool)
    → outside.actions action ≡ some handler
    → (content : Value) (db : InboundDb) → (handler content db).0.delivered ≡ db.delivered

abbrev pub Keeps : Option Outside → Type 0
Keeps none = Unit
Keeps (some outside) = KeepsDelivered outside

-- What `deliverMessage` leaves alone.
pub record Frame (adapter : Option Outside) (s t : DeliveryState) : Type 0 where
  pub attempts : t.attempts ≡ s.attempts
  pub delivered : Keeps adapter → t.inbound.delivered ≡ s.inbound.delivered

-- Nothing was sent, or one message was, to a permitted chat.
abbrev pub Effect : CentralDb → Session → MessageOut → DeliveryState → DeliveryState → Type 0
Effect central session msg s t =
    (t.sent ≡ s.sent)
    ⊎ ((x : Sent) × (x.message_id ≡ msg.id)
        × (may_deliver central session x.channel_type x.platform_id ≡ true)
        × (t.sent ≡ s.sent ++ x ∷ []))

track_question-Frame :
    (adapter : Option Outside) (session : Session) (msg : MessageOut) (content : Value)
    (s : DeliveryState) {t : DeliveryState}
    → track_question session msg content s ≡ some t
    → Frame adapter s t × (t.sent ≡ s.sent)
unfolding track_question
track_question-Frame adapter session msg content s {t} h = ground arith

content_cases : (c : Content) → ((raw : String) × (c ≡ plain raw)) ⊎ ((v : Value) × (c ≡ json v))
content_cases (plain raw) = inl (raw, refl)
content_cases (json v) = inr (v, refl)

module _ (outside : Outside) (central : CentralDb) (session : Session) (msg : MessageOut) where
  abbrev Good : DeliveryState → DeliveryState × Outcome → Type 0
  Good s r = Frame (some outside) s r.0 × Effect central session msg s r.0

  Good-same : (s : DeliveryState) (o : Outcome) → Good s (s, o)
  Good-same s o = (record { attempts = refl; delivered = λ keeps. refl }, inl refl)

  abbrev message_to : String → String → Sent
  message_to type id = record {
    message_id = msg.id;
    channel_type = type;
    platform_id = id;
    thread_id = msg.thread_id;
    account = account_of (origin_group central session);
  }

  send_message-0 :
      (type id : String) (s : DeliveryState)
      → (send_message outside central session msg type id s).0
        ≡ record s { sent = s.sent ++ message_to type id ∷ [] }
  unfolding send_message
  send_message-0 type id s = elim (Option-cases (outside.send (message_to type id))) [
    | inl e ↦ rw (e, send_message) refl
    | inr (x, e) ↦ rw (e, send_message) refl
  ]

  send_message-effect :
      (type id : String) (s : DeliveryState)
      → may_deliver central session type id ≡ true
      → Good s (send_message outside central session msg type id s)
  send_message-effect type id s ok = rw (send_message-0 type id s) (
      (
        record { attempts = refl; delivered = λ keeps. refl },
        inr (message_to type id, refl, ok, refl),
      ))

  Good-trans :
      (s t : DeliveryState) (r : DeliveryState × Outcome)
      → Frame (some outside) s t × (t.sent ≡ s.sent)
      → Good t r
      → Good s r
  Good-trans s t r (f, e) (g, inl h) = (
    record {
      attempts = g.attempts ∙ f.attempts;
      delivered = λ keeps. g.delivered keeps ∙ f.delivered keeps;
    },
    inl (h ∙ e),
  )
  Good-trans s t r (f, e) (g, inr (x, named, ok, h)) = (
    record {
      attempts = g.attempts ∙ f.attempts;
      delivered = λ keeps. g.delivered keeps ∙ f.delivered keeps;
    },
    inr (x, named, ok, rw (sym e) h),
  )

  send_if_addressed-effect :
      (channel_type platform_id : Option String) (s : DeliveryState)
      → is_permitted central session channel_type platform_id ≡ true
      → Good s (send_if_addressed outside central session msg channel_type platform_id s)
  send_if_addressed-effect none platform_id s ok = Good-same s (done none)
  send_if_addressed-effect (some type) none s ok = Good-same s (done none)
  send_if_addressed-effect (some type) (some id) s ok = send_message-effect type id s ok

  -- the clauses of `track_and_send` for a content that is not null
  track_and_send-not_null :
      (content : Value) (channel_type platform_id : Option String) (s : DeliveryState)
      → is_permitted central session channel_type platform_id ≡ true
      → Good s (elim (track_question session msg content s) [
        | none ↦ (s, threw)
        | some tracked ↦
            send_if_addressed outside central session msg channel_type platform_id tracked
      ])
  track_and_send-not_null content channel_type platform_id s ok =
      elim (Option-cases (track_question session msg content s)) [
        | inl e ↦ rw e (Good-same s threw)
        | inr (t, e) ↦ rw e (
            Good-trans s t
              (send_if_addressed outside central session msg channel_type platform_id t)
              (track_question-Frame (some outside) session msg content s e)
              (send_if_addressed-effect channel_type platform_id t ok))
      ]

  track_and_send-effect :
      (content : Value) (channel_type platform_id : Option String) (s : DeliveryState)
      → is_permitted central session channel_type platform_id ≡ true
      → Good s (track_and_send outside central session msg content channel_type platform_id s)
  unfolding track_and_send
  track_and_send-effect null channel_type platform_id s ok = Good-same s threw
  track_and_send-effect (boolean b) channel_type platform_id s ok =
      track_and_send-not_null (boolean b) channel_type platform_id s ok
  track_and_send-effect (number n) channel_type platform_id s ok =
      track_and_send-not_null (number n) channel_type platform_id s ok
  track_and_send-effect (text t) channel_type platform_id s ok =
      track_and_send-not_null (text t) channel_type platform_id s ok
  track_and_send-effect (array xs) channel_type platform_id s ok =
      track_and_send-not_null (array xs) channel_type platform_id s ok
  track_and_send-effect (object fs) channel_type platform_id s ok =
      track_and_send-not_null (object fs) channel_type platform_id s ok

  deliver_to_channel-effect :
      (content : Value) (s : DeliveryState)
      → Good s (deliver_to_channel outside central session msg content s)
  unfolding deliver_to_channel
  deliver_to_channel-effect content s =
      let channel_type = non_empty msg.channel_type in
      let platform_id = non_empty msg.platform_id in
      elim (Bool-cases (is_permitted central session channel_type platform_id)) [
        | inl ok ↦ rw ok (track_and_send-effect content channel_type platform_id s ok)
        | inr refused ↦ rw refused (Good-same s threw)
      ]

  handle_not_null :
      (content : Value) (s : DeliveryState)
      → Good s (elim (as_string (get "action" content)) [
        | none ↦ (s, done none)
        | some action ↦ elim (outside.actions action) [
          | none ↦ (s, done none)
          | some handler ↦
              let (db, ok) = handler content s.inbound in
              (record s { inbound = db }, if ok then done none else threw)
        ]
      ])
  handle_not_null content s = elim (Option-cases (as_string (get "action" content))) [
    | inl e ↦ rw e (Good-same s (done none))
    | inr (action, e) ↦ elim (Option-cases (outside.actions action)) [
      | inl e' ↦ rw e (rw e' (Good-same s (done none)))
      | inr (handler, e') ↦ rw e (
          rw e' (
            record {
              attempts = refl;
              delivered = λ keeps. keeps action handler e' content s.inbound;
            },
            inl refl,
          ))
    ]
  ]

  handle_system_action-effect :
      (content : Value) (s : DeliveryState) → Good s (handle_system_action outside content s)
  unfolding handle_system_action
  handle_system_action-effect null s = Good-same s threw
  handle_system_action-effect (boolean b) s = handle_not_null (boolean b) s
  handle_system_action-effect (number n) s = handle_not_null (number n) s
  handle_system_action-effect (text t) s = handle_not_null (text t) s
  handle_system_action-effect (array xs) s = handle_not_null (array xs) s
  handle_system_action-effect (object fs) s = handle_not_null (object fs) s

  pub deliver_message-effect :
      (s : DeliveryState) → Good s (deliver_message (some outside) central session msg s)
  unfolding deliver_message
  deliver_message-effect s = elim (content_cases msg.content) [
    | inl (raw, e) ↦ rw (e, deliver_message) (Good-same s threw)
    | inr (content, e) ↦
        rw (e, deliver_message)
          (if-intro (Good s) (str_eq msg.kind "system") (λ _. handle_system_action-effect content s)
            (λ _.
              if-intro (Good s) (sql_eq msg.channel_type "agent")
                (λ _. Good-same s (
                  if is_some central.agent_destinations && outside.route_agent_message msg
                  then done none
                  else threw))
                (λ _. deliver_to_channel-effect content s)))
  ]
