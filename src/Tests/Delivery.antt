-- ===== src/Tests/Delivery.antt =====
-- The theorems of Delivery at a chat whose adapter always fails.
use clawie.Delivery.Polls.{
  Polls, at_rest, deliver_session_messages, advance, start, call, next, Follows, Reach-Follows,
}
use clawie.Prelude.{String, ◌≡◌, ◌≤◌, refl, true, false, none, some, List, [], ◌∷◌, All, arith}
use clawie.SessionDb.{
  OutboundDb, get_delivered_ids, get_due_outbound_messages, is_due, delivered_ok,
}
use clawie.Central.{Session, get_agent_group, get_messaging_group, get_messaging_group_by_platform}
use clawie.Delivery.{
  DeliveryState, Outside, Sent, max_delivery_attempts, may_deliver, drain_session, undelivered,
  drain_messages, drain_message, settle, deliver_message, deliver_to_channel, track_question,
  track_and_send, question_of, send_message,
}
use clawie.Delivery.Access.{drain_session-permitted}
use clawie.Delivery.Effect.{Keeps}
use clawie.Delivery.Drain.{sends, is_settled}
use clawie.Delivery.Rounds.{
  Round, drain_rounds, IsSound, IsDue, drain_rounds-sends, drain_rounds-settled,
  drain_rounds-settles,
}
use clawie.Tests.{central, session_of, outgoing, no_inbound}

abbrev failing : Outside
failing = record {
  send = λ (x : Sent). none;
  actions = λ action. none;
  route_agent_message = λ msg. false;
}

abbrev idle : DeliveryState
idle = record { inbound = no_inbound; attempts = λ id. 0; questions = none; sent = [] }

abbrev two_messages : OutboundDb
two_messages = record {
  messages_out = outgoing "o1" ∷ record (outgoing "o2") { platform_id = some "-200" } ∷ [];
  processing_ack = [];
  container_state = none;
}

abbrev session : Session
session = session_of "s-helper" "ag-helper"

abbrev round : Round
round = record { now = 100; adapter = some failing; central = central []; out_db = two_messages }

failing-Keeps : Keeps (some failing)
failing-Keeps action handler h content db = ground (arith, h)

abbrev sent_ids : List Sent → List String
sent_ids [] = []
sent_ids (x ∷ xs) = x.message_id ∷ sent_ids xs

-- The first message goes to the session's own chat and is given to the adapter; the second, to a
-- chat without a destination, is not.
first_drain :
    sent_ids (drain_session 100 (some failing) (central []) session two_messages idle).sent
    ≡ "o1" ∷ []
unfolding drain_session undelivered drain_messages drain_message settle deliver_message
    deliver_to_channel track_question track_and_send question_of send_message may_deliver
    get_agent_group get_messaging_group get_due_outbound_messages is_due get_delivered_ids
    get_messaging_group_by_platform
first_drain = refl

drain_session-permitted_example :
    All
      (λ (x : Sent). may_deliver (central []) session x.channel_type x.platform_id ≡ true)
      (drain_session 100 (some failing) (central []) session two_messages idle).sent
drain_session-permitted_example =
    drain_session-permitted (some failing) (central []) session 100 two_messages idle tt

round-IsSound : IsSound "o1" round
round-IsSound = (failing-Keeps, omega arith)

abbrev four_rounds : List Round
four_rounds = round ∷ round ∷ round ∷ round ∷ []

drain_rounds-sends_example :
    sends "o1" (drain_rounds session four_rounds idle) ≤ max_delivery_attempts
drain_rounds-sends_example =
    drain_rounds-sends session "o1" four_rounds idle
      (round-IsSound, (round-IsSound, (round-IsSound, (round-IsSound, tt)))) refl refl

abbrev settled : DeliveryState
settled = record {
  inbound = record {
    messages_in = [];
    delivered =
        record { message_out_id = "o1"; platform_message_id = some "77"; status = delivered_ok }
        ∷ [];
  };
  attempts = λ id. 0;
  questions = none;
  sent = [];
}

settled-is_settled : is_settled "o1" settled ≡ true
unfolding get_delivered_ids
settled-is_settled = refl

drain_rounds-settled_example :
    (sends "o1" (drain_rounds session (round ∷ round ∷ []) settled) ≡ sends "o1" settled)
    × (is_settled "o1" (drain_rounds session (round ∷ round ∷ []) settled) ≡ true)
drain_rounds-settled_example =
    drain_rounds-settled session "o1" (round ∷ round ∷ []) settled
      (failing-Keeps, (failing-Keeps, tt)) settled-is_settled

round-IsDue : IsDue session "o1" round
unfolding get_due_outbound_messages is_due get_agent_group
round-IsDue = (refl, λ e. ground (arith, e))

drain_rounds-settles_example :
    is_settled "o1" (drain_rounds session (round ∷ round ∷ round ∷ []) idle) ≡ true
drain_rounds-settles_example =
    drain_rounds-settles session "o1" (round ∷ round ∷ round ∷ []) idle
      (
        (failing-Keeps, round-IsDue),
        ((failing-Keeps, round-IsDue), ((failing-Keeps, round-IsDue), tt)),
      )
      (omega arith) (omega arith)

-- Both polls call at once: the second is turned away, and the drain of the first goes on.
abbrev both_called : Polls
both_called =
    advance session 0 (
      deliver_session_messages session round
        (deliver_session_messages session round (at_rest idle)))

Reach-Follows_example : Follows session idle both_called
Reach-Follows_example =
    Reach-Follows session idle both_called (next (call (call start round) round) 0)
