-- ===== src/Delivery/Rounds.antt =====
-- The drains of one session by the delivery polls, one after the other.
use clawie.Prelude.{
  ℕ, ◌+◌, ◌≤◌, ◌<◌, String, ◌≡◌, ◌⊎◌, ◌≢◌, refl, ◌∙◌, true, false, not, inl, inr, Option, none,
  List, [], ◌∷◌, arith, str_eq, str_eq_iff, Bool-cases, Option-cases, All, count, count-select-zero,
  count-select-le, count-select-same, count-order_by, leb, select, length, All-weaken, zero, suc,
}
use clawie.SessionDb.{OutboundDb, MessageOut, get_delivered_ids, get_due_outbound_messages, is_due}
use clawie.Central.{CentralDb, Session, get_agent_group}
use clawie.Delivery.{
  DeliveryState, Outside, is_listed, max_delivery_attempts, drain_session, undelivered,
}
use clawie.Delivery.Effect.{Keeps}
use clawie.Delivery.Drain.{
  sends, has_id, is_settled, IsQuiet, IsTried, drain_messages-IsQuiet, drain_messages-IsTried,
}

-- A round of the poll: the time, the adapter, and the databases that it finds.
pub record Round : Type 0 where
  pub now : ℕ
  pub adapter : Option Outside
  pub central : CentralDb
  pub out_db : OutboundDb

abbrev pub drain_round : Session → Round → DeliveryState → DeliveryState
drain_round session r s = drain_session r.now r.adapter r.central session r.out_db s

abbrev pub drain_rounds : Session → List Round → DeliveryState → DeliveryState
drain_rounds session [] s = s
drain_rounds session (r ∷ rounds) s = drain_rounds session rounds (drain_round session r s)

-- The adapter's system actions keep `delivered`, and `messages_out.id` is a primary key.
abbrev pub IsSound : String → Round → Type 0
IsSound id r = Keeps r.adapter × (count (has_id id) r.out_db.messages_out ≤ 1)

-- The message is there, its time has come, and the session's agent group exists.
abbrev pub IsDue : Session → String → Round → Type 0
IsDue session id r =
    (count (has_id id) (get_due_outbound_messages r.now r.out_db) ≡ 1)
    × (get_agent_group session.agent_group_id r.central ≢ none)

module _ (session : Session) (id : String) where
  undelivered-settled :
      (r : Round) (s : DeliveryState)
      → is_settled id s ≡ true
      → count (has_id id) (undelivered r.now r.out_db s.inbound) ≡ 0
  unfolding undelivered
  undelivered-settled r s settled =
      count-select-zero (has_id id)
        (λ (m : MessageOut). not (is_listed (get_delivered_ids s.inbound) m.id))
        (get_due_outbound_messages r.now r.out_db) (λ m own. same m.id own)
    where
      same :
          (other : String)
          → str_eq other id ≡ true
          → not (is_listed (get_delivered_ids s.inbound) other) ≡ false
      same other own = rw ((str_eq_iff other id).0 own) (ground (arith, settled))

  undelivered-open :
      (r : Round) (s : DeliveryState)
      → is_settled id s ≡ false
      → count (has_id id) (undelivered r.now r.out_db s.inbound)
        ≡ count (has_id id) (get_due_outbound_messages r.now r.out_db)
  unfolding undelivered
  undelivered-open r s open_ =
      count-select-same (has_id id)
        (λ (m : MessageOut). not (is_listed (get_delivered_ids s.inbound) m.id))
        (get_due_outbound_messages r.now r.out_db) (λ m own. same m.id own)
    where
      same :
          (other : String)
          → str_eq other id ≡ true
          → not (is_listed (get_delivered_ids s.inbound) other) ≡ true
      same other own = rw ((str_eq_iff other id).0 own) (ground (arith, open_))

  due-le :
      (r : Round)
      → count (has_id id) (get_due_outbound_messages r.now r.out_db)
        ≤ count (has_id id) r.out_db.messages_out
  unfolding get_due_outbound_messages
  due-le r =
      rw
        (count-order_by (has_id id) (λ (a b : MessageOut). leb a.timestamp b.timestamp)
          (select (λ (m : MessageOut). is_due r.now m.deliver_after) r.out_db.messages_out))
        (count-select-le (has_id id) (λ (m : MessageOut). is_due r.now m.deliver_after)
          r.out_db.messages_out)

  quiet : (s : DeliveryState) → IsQuiet id s s
  quiet s = (refl, refl, refl)

  round-settled :
      (r : Round) (s : DeliveryState)
      → Keeps r.adapter
      → is_settled id s ≡ true
      → IsQuiet id s (drain_round session r s)
  unfolding drain_session
  round-settled r s keeps settled =
      elim (Option-cases (get_agent_group session.agent_group_id r.central)) [
        | inl e ↦ rw (e, drain_session) (quiet s)
        | inr (group, e) ↦
            rw (e, drain_session)
              (drain_messages-IsQuiet r.adapter r.central session id keeps
                (undelivered r.now r.out_db s.inbound) s (undelivered-settled r s settled))
      ]

  round-IsTried :
      (r : Round) (s : DeliveryState)
      → Keeps r.adapter
      → IsDue session id r
      → is_settled id s ≡ false
      → IsTried id s (drain_round session r s)
  unfolding drain_session
  round-IsTried r s keeps due open_ =
      elim (Option-cases (get_agent_group session.agent_group_id r.central)) [
        | inl e ↦ absurd (due.1 e)
        | inr (group, e) ↦
            rw (e, drain_session)
              (drain_messages-IsTried r.adapter r.central session id keeps
                (undelivered r.now r.out_db s.inbound) s (undelivered-open r s open_ ∙ due.0))
      ]

  round-cases :
      (r : Round) (s : DeliveryState)
      → IsSound id r
      → IsQuiet id s (drain_round session r s)
        ⊎ ((is_settled id s ≡ false) × IsTried id s (drain_round session r s))
  unfolding drain_session
  round-cases r s sound = elim (Bool-cases (is_settled id s)) [
    | inl settled ↦ inl (round-settled r s sound.0 settled)
    | inr open_ ↦ elim (Option-cases (get_agent_group session.agent_group_id r.central)) [
      | inl e ↦ rw (e, drain_session) (inl (quiet s))
      | inr (group, e) ↦
          rw (e, drain_session)
            (elim (zero_or_one (count (has_id id) (undelivered r.now r.out_db s.inbound))
              (omega (arith, undelivered-open r s open_, due-le r, sound.1))) [
                | inl none_there ↦ inl (
                    drain_messages-IsQuiet r.adapter r.central session id sound.0
                      (undelivered r.now r.out_db s.inbound) s none_there)
                | inr one_there ↦ inr (
                  open_,
                  drain_messages-IsTried r.adapter r.central session id sound.0
                      (undelivered r.now r.out_db s.inbound) s one_there,
                )
              ])
    ]
  ]
    where
      zero_or_one : (n : ℕ) → n ≤ 1 → (n ≡ 0) ⊎ (n ≡ 1)
      zero_or_one zero h = inl refl
      zero_or_one (suc n) h = inr (omega (arith, h))

  -- The bound on the sends of a message, as an invariant.
  abbrev IsBounded : DeliveryState → Type 0
  IsBounded s =
      ((is_settled id s ≡ true) × (sends id s ≤ max_delivery_attempts))
      ⊎ ((sends id s ≤ s.attempts id) × (s.attempts id < max_delivery_attempts))

  round-IsBounded :
      (r : Round) (s : DeliveryState)
      → IsSound id r
      → IsBounded s
      → IsBounded (drain_round session r s)
  round-IsBounded r s sound (inl (settled, few)) =
      let same = round-settled r s sound.0 settled in
      inl (same.1 ∙ settled, omega (arith, same.0, few))
  round-IsBounded r s sound (inr (sent, few)) = elim (round-cases r s sound) [
    | inl same ↦ inr (omega (arith, same.0, same.2, sent), omega (arith, same.2, few))
    | inr (open_, (at_most, inl settled)) ↦ inl (settled, omega (arith, at_most, sent, few))
    | inr (open_, (at_most, inr (kept, attempt, fewer))) ↦
        inr (omega (arith, at_most, attempt, sent), omega (arith, attempt, fewer))
  ]

  rounds-IsBounded :
      (rounds : List Round) (s : DeliveryState)
      → All (IsSound id) rounds
      → IsBounded s
      → IsBounded (drain_rounds session rounds s)
  rounds-IsBounded [] s sound h = h
  rounds-IsBounded (r ∷ rounds) s sound h =
      rounds-IsBounded rounds (drain_round session r s) sound.1 (round-IsBounded r s sound.0 h)

  -- A message that was never tried is given to the channel adapter three times at most, however
  -- many rounds there are and whatever the adapter answers.
  pub drain_rounds-sends :
      (rounds : List Round) (s : DeliveryState)
      → All (IsSound id) rounds
      → sends id s ≡ 0
      → s.attempts id ≡ 0
      → sends id (drain_rounds session rounds s) ≤ max_delivery_attempts
  drain_rounds-sends rounds s sound unsent untried =
      elim (rounds-IsBounded rounds s sound
        (inr (omega (arith, unsent, untried), omega (arith, untried)))) [
          | inl (settled, few) ↦ few
          | inr (sent, few) ↦ omega (arith, sent, few)
        ]

  -- A message with a row in `delivered` is never given to the channel adapter again, and keeps the
  -- row.
  pub drain_rounds-settled :
      (rounds : List Round) (s : DeliveryState)
      → All (λ (r : Round). Keeps r.adapter) rounds
      → is_settled id s ≡ true
      → (sends id (drain_rounds session rounds s) ≡ sends id s)
        × (is_settled id (drain_rounds session rounds s) ≡ true)
  drain_rounds-settled [] s keeps settled = (refl, settled)
  drain_rounds-settled (r ∷ rounds) s keeps settled =
      let first = round-settled r s keeps.0 settled in
      let later =
        drain_rounds-settled rounds (drain_round session r s) keeps.1 (first.1 ∙ settled) in
      (later.0 ∙ first.0, later.1)

  -- A message that is due in every round has a row in `delivered` once the rounds make up for the
  -- attempts it has left.
  pub drain_rounds-settles :
      (rounds : List Round) (s : DeliveryState)
      → All (λ (r : Round). Keeps r.adapter × IsDue session id r) rounds
      → s.attempts id < max_delivery_attempts
      → max_delivery_attempts ≤ s.attempts id + length rounds
      → is_settled id (drain_rounds session rounds s) ≡ true
  drain_rounds-settles [] s due few enough = absurd (omega (arith, few, enough))
  drain_rounds-settles (r ∷ rounds) s due few enough = elim (Bool-cases (is_settled id s)) [
    | inl settled ↦
        (drain_rounds-settled (r ∷ rounds) s (All-weaken _ _ (λ x h. h.0) (r ∷ rounds) due)
          settled).1
    | inr open_ ↦ elim (round-IsTried r s due.0.0 due.0.1 open_).1 [
      | inl settled ↦
          (drain_rounds-settled rounds (drain_round session r s)
            (All-weaken _ _ (λ x h. h.0) rounds due.1) settled).1
      | inr (kept, attempt, fewer) ↦
          drain_rounds-settles rounds (drain_round session r s) due.1
            (omega (arith, attempt, fewer)) (omega (arith, attempt, enough))
    ]
  ]
