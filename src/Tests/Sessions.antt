-- ===== src/Tests/Sessions.antt =====
-- The theorems of Sweep, AgentRunner and Scheduling at small session databases.
use clawie.Prelude.{ℕ, String, ◌≡◌, ◌≢◌, ◌↔◌, refl, true, false, none, some, [], ◌∷◌, All, select}
use clawie.SessionDb.{
  InboundDb, OutboundDb, MessageIn, NewMessage, MessageStatus, pending, completed, ProcessingAck,
  ack_processing, instant, insert_message, insert_row, new_row, next_even_seq,
  get_message_for_retry,
}
use clawie.AgentRunner.{WriteMessageOut, write_message_out, new_out_row, next_odd_seq}
use clawie.AgentRunner.Seq.{IsNumbered, in_seqs, out_seqs}
use clawie.AgentRunner.Steps.{Reach, here, next, inserted, written, Reach-seqs_apart}
use clawie.Scheduling.{in_series, cancel_task, get_completed_recurring}
use clawie.Scheduling.Series.{is_live_in, is_paused_in, cancel_task_lem}
use clawie.Sweep.{
  leave, kill_claim, decide_stuck_action, first_stuck_claim, bash_timeout_ms, is_rescheduled,
  reset_messages,
}
use clawie.Sweep.Stuck.{IsPastCeiling, IsSilent, tolerance_of, decide_stuck_action-leave_iff}
use clawie.Sweep.Retries.{IsReset, reset_messages-IsReset}
use clawie.Tests.{says, no_inbound, no_outbound}

abbrev claim : ProcessingAck
claim = record { message_id = "m1"; status = ack_processing; status_changed = instant 1000 }

decide_stuck_action-leave_iff_example : (decide_stuck_action 30000 0 none (claim ∷ []) ≡ leave) ↔ (
    (¬ IsPastCeiling 30000 0 none)
    × All (λ c. ¬ IsSilent 30000 0 (tolerance_of none) c) (claim ∷ []))
decide_stuck_action-leave_iff_example = decide_stuck_action-leave_iff 30000 0 none (claim ∷ [])

-- A claim that is not followed by a heartbeat for more than a minute.
killed_for_claim : decide_stuck_action 90000 500 none (claim ∷ []) ≡ kill_claim "m1" 89000 60000
unfolding decide_stuck_action first_stuck_claim bash_timeout_ms
killed_for_claim = refl

abbrev message : String → MessageStatus → ℕ → MessageIn
message id status tries = record {
  id = id;
  seq = 2;
  kind = "task";
  timestamp = 0;
  status = status;
  process_after = none;
  recurrence = some "0 9 * * *";
  series_id = some "m1";
  tries = tries;
  trigger = true;
  platform_id = none;
  channel_type = none;
  thread_id = none;
  content = says "remind me";
  source_session_id = none;
  on_wake = false;
}

abbrev inbox : MessageStatus → ℕ → InboundDb
inbox status tries = record { messages_in = message "m1" status tries ∷ []; delivered = [] }

inbox_found : get_message_for_retry "m1" pending (inbox pending 2) ≡ some (message "m1" pending 2)
unfolding get_message_for_retry
inbox_found = refl

inbox_due : is_rescheduled 90000 none ≡ false
unfolding is_rescheduled
inbox_due = refl

-- Two claims of one message: it is retried once.
reset_messages-IsReset_example :
    IsReset 90000 "m1"
      (claim ∷ claim ∷ [])
      (reset_messages 90000 (claim ∷ claim ∷ []) (inbox pending 2))
      (message "m1" pending 2)
reset_messages-IsReset_example =
    reset_messages-IsReset 90000 (claim ∷ claim ∷ []) (inbox pending 2) "m1"
      (message "m1" pending 2) inbox_found

abbrev new_message : NewMessage
new_message = record {
  id = "n1";
  kind = "chat";
  timestamp = 5;
  platform_id = none;
  channel_type = none;
  thread_id = none;
  content = says "hi";
  process_after = none;
  recurrence = none;
  trigger = none;
  source_session_id = none;
  on_wake = none;
}

abbrev reply : WriteMessageOut
reply = record {
  id = "o1";
  in_reply_to = some "n1";
  deliver_after = none;
  kind = "chat";
  platform_id = none;
  channel_type = none;
  thread_id = none;
  content = says "hello";
}

abbrev after_insert : InboundDb
after_insert = record { messages_in = new_row 2 new_message ∷ []; delivered = [] }

abbrev after_write : OutboundDb
after_write = record {
  messages_out = new_out_row 7 3 reply ∷ [];
  processing_ack = [];
  container_state = none;
}

empty-IsNumbered : IsNumbered no_inbound no_outbound
empty-IsNumbered = record { even = tt; odd = tt; in_ascending = tt; out_ascending = tt }

insert_accepted : insert_message no_inbound new_message ≡ some after_insert
unfolding insert_message insert_row next_even_seq
insert_accepted = refl

write_accepted : write_message_out 7 reply after_insert no_outbound ≡ some (after_write, 3)
unfolding write_message_out next_odd_seq new_row
write_accepted = refl

abbrev exchange : Reach no_inbound no_outbound after_insert after_write
exchange =
    next (next here (inserted new_message insert_accepted)) (written 7 reply 3 write_accepted)

Reach-seqs_apart_example : All (λ n. All (λ k. n ≢ k) (out_seqs after_write)) (in_seqs after_insert)
Reach-seqs_apart_example = Reach-seqs_apart empty-IsNumbered exchange

cancel_task_lem_example :
    (select (is_live_in "m1") (cancel_task "m1" (inbox completed 0)).messages_in ≡ [])
    × (get_completed_recurring (cancel_task "m1" (inbox completed 0))
        ≡ get_completed_recurring (inbox completed 0))
cancel_task_lem_example = cancel_task_lem "m1" (inbox completed 0)

-- The completed occurrence is still there to be cloned after the cancel.
cancelled_recurs :
    get_completed_recurring (cancel_task "m1" (inbox completed 0)) ≡ message "m1" completed 0 ∷ []
unfolding get_completed_recurring cancel_task in_series
cancelled_recurs = refl

not_paused : is_paused_in "m1" (message "m1" pending 0) ≡ false
unfolding in_series
not_paused = refl
