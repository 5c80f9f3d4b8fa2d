-- ===== src/Delivery/Drain.antt =====
-- How often a message is sent over the drains of its session, and that they settle it.
use clawie.Prelude.{
  ℕ, ◌+◌, ◌≤◌, String, ◌≡◌, ◌⊎◌, refl, ap, ◌∙◌, Bool, true, false, inl, inr, Option, List, [], ◌∷◌,
  arith, str_eq, Bool-cases, count, count-append,
}
use clawie.SessionDb.{MessageOut, get_delivered_ids}
use clawie.Central.{CentralDb, Session}
use clawie.Delivery.{
  DeliveryState, Outside, Sent, Outcome, is_listed, settle, deliver_message, drain_message,
  drain_messages,
}
use clawie.Delivery.Marks.{settle-own, settle-other, IsRetried}
use clawie.Delivery.Access.{deliver_message-cases, settle-sent}
use clawie.Delivery.Effect.{Keeps}

abbrev pub is_of : String → Sent → Bool
is_of id x = str_eq x.message_id id

-- how often the message was given to the channel adapter
abbrev pub sends : String → DeliveryState → ℕ
sends id s = count (is_of id) s.sent

abbrev pub has_id : String → MessageOut → Bool
has_id id m = str_eq m.id id

abbrev pub is_settled : String → DeliveryState → Bool
is_settled id s = is_listed (get_delivered_ids s.inbound) id

-- Nothing happened to the message.
abbrev pub IsQuiet : String → DeliveryState → DeliveryState → Type 0
IsQuiet id s t =
    (sends id t ≡ sends id s)
    × (is_settled id t ≡ is_settled id s)
    × (t.attempts id ≡ s.attempts id)

-- The message was taken up: sent once at most, and then settled or left for another attempt.
abbrev pub IsTried : String → DeliveryState → DeliveryState → Type 0
IsTried id s t = (sends id t ≤ sends id s + 1) × ((is_settled id t ≡ true) ⊎ IsRetried id s t)

module _ (adapter : Option Outside) (central : CentralDb) (session : Session) (id : String)
    (keeps : Keeps adapter) where
  abbrev delivered_to : MessageOut → DeliveryState → DeliveryState
  delivered_to msg s = (deliver_message adapter central session msg s).0

  settled_same :
      (msg : MessageOut) (s : DeliveryState) → is_settled id (delivered_to msg s) ≡ is_settled id s
  unfolding get_delivered_ids
  settled_same msg s =
      rw ((deliver_message-cases adapter central session msg s).0.delivered keeps) refl

  attempts_same :
      (msg : MessageOut) (s : DeliveryState) → (delivered_to msg s).attempts id ≡ s.attempts id
  attempts_same msg s = rw ((deliver_message-cases adapter central session msg s).0.attempts) refl

  deliver-sends :
      (msg : MessageOut) (s : DeliveryState)
      → (sends id (delivered_to msg s) ≤ sends id s + 1)
        × (has_id id msg ≡ false → sends id (delivered_to msg s) ≡ sends id s)
  deliver-sends msg s = elim (deliver_message-cases adapter central session msg s).1 [
    | inl e ↦ rw e (omega arith, λ _. refl)
    | inr (x, named, ok, e) ↦
        rw (e, count-append (is_of id) s.sent (x ∷ []))
          (ground arith, λ other. let h : is_of id x ≡ false = rw named other in ground (arith, h))
  ]

  settle-sends :
      (msg : MessageOut) (s : DeliveryState) (outcome : Outcome)
      → sends id (settle msg.id s outcome) ≡ sends id s
  settle-sends msg s outcome = ap (count (is_of id)) (settle-sent msg.id s outcome)

  drain_message-IsTried :
      (msg : MessageOut) (s : DeliveryState)
      → has_id id msg ≡ true
      → IsTried id s (drain_message adapter central session msg s)
  unfolding drain_message
  drain_message-IsTried msg s own =
      let (t, outcome) = deliver_message adapter central session msg s in
      (
        omega (arith, settle-sends msg t outcome, (deliver-sends msg s).0),
        elim (settle-own id msg.id t outcome own) [
          | inl listed ↦ inl listed
          | inr (kept, attempt, few) ↦ inr (
            kept ∙ settled_same msg s,
            omega (arith, attempt, attempts_same msg s),
            omega (arith, few, attempts_same msg s),
          )
        ],
      )

  drain_message-IsQuiet :
      (msg : MessageOut) (s : DeliveryState)
      → has_id id msg ≡ false
      → IsQuiet id s (drain_message adapter central session msg s)
  unfolding drain_message
  drain_message-IsQuiet msg s other =
      let (t, outcome) = deliver_message adapter central session msg s in
      let kept = settle-other id msg.id t outcome other in
      (
        settle-sends msg t outcome ∙ (deliver-sends msg s).1 other,
        kept.0 ∙ settled_same msg s,
        kept.1 ∙ attempts_same msg s,
      )

  -- the messages of a drain that are not the message in question
  pub drain_messages-IsQuiet :
      (msgs : List MessageOut) (s : DeliveryState)
      → count (has_id id) msgs ≡ 0
      → IsQuiet id s (drain_messages adapter central session msgs s)
  unfolding drain_messages
  drain_messages-IsQuiet [] s absent = (refl, refl, refl)
  drain_messages-IsQuiet (msg ∷ rest) s absent =
      let first = drain_message-IsQuiet msg s (ground (arith, absent)) in
      let later =
        drain_messages-IsQuiet rest (drain_message adapter central session msg s)
          (ground (arith, absent)) in
      (later.0 ∙ first.0, later.1 ∙ first.1, later.2 ∙ first.2)

  pub drain_messages-IsTried :
      (msgs : List MessageOut) (s : DeliveryState)
      → count (has_id id) msgs ≡ 1
      → IsTried id s (drain_messages adapter central session msgs s)
  unfolding drain_messages
  drain_messages-IsTried [] s once = absurd (omega (arith, once))
  drain_messages-IsTried (msg ∷ rest) s once = elim (Bool-cases (has_id id msg)) [
    | inl own ↦
        let (at_most, end) = drain_message-IsTried msg s own in
        let later =
          drain_messages-IsQuiet rest (drain_message adapter central session msg s)
            (ground (arith, once)) in
        (
          omega (arith, at_most, later.0),
          elim end [
            | inl listed ↦ inl (later.1 ∙ listed)
            | inr (kept, attempt, few) ↦ inr (later.1 ∙ kept, later.2 ∙ attempt, few)
          ],
        )
    | inr other ↦
        let first = drain_message-IsQuiet msg s other in
        let (at_most, end) =
          drain_messages-IsTried rest (drain_message adapter central session msg s)
            (ground (arith, once)) in
        (
          omega (arith, at_most, first.0),
          elim end [
            | inl listed ↦ inl listed
            | inr (kept, attempt, few) ↦
                inr (kept ∙ first.1, omega (arith, attempt, first.2), omega (arith, few, first.2))
          ],
        )
  ]
