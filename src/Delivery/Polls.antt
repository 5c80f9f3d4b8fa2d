-- ===== src/Delivery/Polls.antt =====
-- The two polls of src/delivery.ts, whose drains of a session may meet, and the set
-- `inflightDeliveries` that keeps them apart.
use clawie.Prelude.{
  ℕ, zero, suc, Bool, true, false, Option, none, some, List, [], ◌∷◌, ◌++◌, ◌≡◌, refl, sym, ap, ◌∙◌,
  inl, inr, if◌then◌else◌, if-intro, Option-cases, false≢true,
}
use clawie.SessionDb.{MessageOut}
use clawie.Central.{Session, AgentGroup, get_agent_group}
use clawie.Delivery.{DeliveryState, undelivered, drain_message, drain_messages, drain_session}
use clawie.Delivery.Rounds.{Round, drain_round, drain_rounds}

-- A drain that waits for the adapter: what it found, and the messages that it has left.
pub record Drain : Type 0 where
  pub found : Round
  pub left : List MessageOut

-- One session: whether it is in `inflightDeliveries`, the drains of it that are on their way, and
-- what they read and write.
pub record Polls : Type 0 where
  pub in_flight : Bool
  pub drains : List Drain
  pub state : DeliveryState

abbrev pub left_for : Option AgentGroup → List MessageOut → List MessageOut
left_for none messages = []
left_for (some group) messages = messages

-- a drain up to its loop
abbrev pub begun : Session → Round → DeliveryState → Drain
begun session r s = record {
  found = r;
  left =
      left_for (get_agent_group session.agent_group_id r.central)
        (undelivered r.now r.out_db s.inbound);
}

-- `deliverSessionMessages`, up to its first await
unfoldable pub deliver_session_messages : Session → Round → Polls → Polls
unfolding get_agent_group undelivered
deliver_session_messages session r p =
    if p.in_flight
    then p
    else record p { in_flight = true; drains = p.drains ++ begun session r p.state ∷ [] }

abbrev pub drain_step :
    Session
    → Drain
    → List MessageOut
    → List Drain
    → DeliveryState
    → List Drain × DeliveryState × Bool
drain_step session d [] others s = (others, s, true)
drain_step session d (msg ∷ rest) others s = (
  record d { left = rest } ∷ others,
  drain_message d.found.adapter d.found.central session msg s,
  false,
)

abbrev pub after_first :
    Drain → List Drain × DeliveryState × Bool → List Drain × DeliveryState × Bool
after_first d (others, s, finished) = (d ∷ others, s, finished)

-- the next message of one of the drains, or its end
abbrev pub advance_at : Session → ℕ → List Drain → DeliveryState → List Drain × DeliveryState × Bool
advance_at session i [] s = ([], s, false)
advance_at session zero (d ∷ others) s = drain_step session d d.left others s
advance_at session (suc i) (d ∷ others) s = after_first d (advance_at session i others s)

-- the `finally` of `deliverSessionMessages` takes the session out of the set
unfoldable pub advance : Session → ℕ → Polls → Polls
unfolding drain_message
advance session i p =
    let (drains, state, finished) = advance_at session i p.drains p.state in
    record { in_flight = if finished then false else p.in_flight; drains = drains; state = state }

abbrev pub at_rest : DeliveryState → Polls
at_rest s = record { in_flight = false; drains = []; state = s }

-- The calls of the two polls and the steps of their drains, in any order.
pub data Reach (session : Session) (before : DeliveryState) : Polls → Type 0 where
  start : Reach session before (at_rest before)
  call :
      {p : Polls}
      → Reach session before p
      → (r : Round) → Reach session before (deliver_session_messages session r p)
  next : {p : Polls} → Reach session before p → (i : ℕ) → Reach session before (advance session i p)

-- The state of drains one after the other, or of the last of them on its way.
pub data Follows (session : Session) (before : DeliveryState) (p : Polls) : Type 0 where
  idle :
      (rounds : List Round)
      → p.in_flight ≡ false
      → p.drains ≡ []
      → p.state ≡ drain_rounds session rounds before
      → Follows session before p
  busy :
      (rounds : List Round) (r : Round) (left : List MessageOut)
      → p.in_flight ≡ true
      → p.drains ≡ record { found = r; left = left } ∷ []
      → drain_messages r.adapter r.central session left p.state
        ≡ drain_round session r (drain_rounds session rounds before)
      → Follows session before p

drain_rounds-last :
    (session : Session) (rounds : List Round) (r : Round) (s : DeliveryState)
    → drain_rounds session (rounds ++ r ∷ []) s
      ≡ drain_round session r (drain_rounds session rounds s)
drain_rounds-last session [] r s = refl
drain_rounds-last session (q ∷ rounds) r s =
    drain_rounds-last session rounds r (drain_round session q s)

begun-drain_round :
    (session : Session) (r : Round) (s : DeliveryState)
    → drain_messages r.adapter r.central session (begun session r s).left s
      ≡ drain_round session r s
unfolding drain_session drain_messages
begun-drain_round session r s =
    elim (Option-cases (get_agent_group session.agent_group_id r.central)) [
      | inl e ↦ rw (e, drain_session) refl
      | inr (group, e) ↦ rw (e, drain_session) refl
    ]

module _ (session : Session) (before : DeliveryState) where
  call-Follows :
      (p : Polls) (r : Round)
      → Follows session before p
      → Follows session before (deliver_session_messages session r p)
  unfolding deliver_session_messages
  call-Follows p r (idle rounds off no_drain same) = rw off (
      busy rounds r (begun session r p.state).left refl
        (ap (λ ds. ds ++ begun session r p.state ∷ []) no_drain)
        (begun-drain_round session r p.state ∙ ap (drain_round session r) same))
  call-Follows p r (busy rounds q left on one same) =
      if-intro (Follows session before) p.in_flight (λ _. busy rounds q left on one same)
        (λ off. absurd (false≢true (sym off ∙ on)))

  first-Follows :
      (p : Polls) (rounds : List Round) (r : Round) (left : List MessageOut)
      → p.in_flight ≡ true
      → p.drains ≡ record { found = r; left = left } ∷ []
      → drain_messages r.adapter r.central session left p.state
        ≡ drain_round session r (drain_rounds session rounds before)
      → Follows session before (advance session 0 p)
  unfolding advance drain_messages
  first-Follows p rounds r [] on one same =
      idle (rounds ++ r ∷ [])
        (ap (λ ds. if (advance_at session 0 ds p.state).2 then false else p.in_flight) one)
        (ap (λ ds. (advance_at session 0 ds p.state).0) one)
        (ap (λ ds. (advance_at session 0 ds p.state).1) one
          ∙ same
          ∙ sym (drain_rounds-last session rounds r before))
  first-Follows p rounds r (msg ∷ rest) on one same =
      busy rounds r rest
        (ap (λ ds. if (advance_at session 0 ds p.state).2 then false else p.in_flight) one ∙ on)
        (ap (λ ds. (advance_at session 0 ds p.state).0) one)
        (ap
            (λ ds.
              drain_messages r.adapter r.central session rest (advance_at session 0 ds p.state).1)
            one
          ∙ same)

  next-Follows :
      (p : Polls) (i : ℕ) → Follows session before p → Follows session before (advance session i p)
  unfolding advance
  next-Follows p i (idle rounds off no_drain same) =
      idle rounds
        (ap (λ ds. if (advance_at session i ds p.state).2 then false else p.in_flight) no_drain
          ∙ off)
        (ap (λ ds. (advance_at session i ds p.state).0) no_drain)
        (ap (λ ds. (advance_at session i ds p.state).1) no_drain ∙ same)
  next-Follows p zero (busy rounds r left on one same) = first-Follows p rounds r left on one same
  next-Follows p (suc i) (busy rounds r left on one same) =
      busy rounds r left
        (ap (λ ds. if (advance_at session (suc i) ds p.state).2 then false else p.in_flight) one
          ∙ on)
        (ap (λ ds. (advance_at session (suc i) ds p.state).0) one)
        (ap
            (λ ds.
              drain_messages r.adapter r.central session left
                (advance_at session (suc i) ds p.state).1)
            one
          ∙ same)

  -- However the calls of the two polls and the steps of their drains follow each other, one drain of a
  -- session at most is on its way, and what they write is what whole drains write that run one
  -- after the other, up to the messages that the one on its way has left.
  pub Reach-Follows : (p : Polls) → Reach session before p → Follows session before p
  Reach-Follows _ start = idle [] refl refl refl
  Reach-Follows _ (call {p} h r) = call-Follows p r (Reach-Follows p h)
  Reach-Follows _ (next {p} h i) = next-Follows p i (Reach-Follows p h)
