-- ===== src/Tests/Outputs.antt =====
-- The theorems of AgentRunner/Output at an answer to two destinations.
use clawie.Prelude.{
  ℕ, zero, suc, ◌+◌, ◌≤◌, ◌<◌, false, none, some, List, [], ◌∷◌, ◌≡◌, refl, arith, All, ◌==◌,
  str_eq, if◌then◌else◌,
}
use clawie.SessionDb.{OutboundDb, MessageOut}
use clawie.Central.{channel, agent}
use clawie.AgentRunner.Output.{
  Turn, DestinationEntry, DispatchResult, dispatch_result_text, result_of, start, pieces,
  text_length, Piece, block, outside, strip_internal_tags,
}
use clawie.AgentRunner.Output.Blocks.{Written, IsPrintable}
use clawie.AgentRunner.Output.Printed.{
  print_blocks, IsFresh, SendsAll, IsKnown, dispatch_result_text-print_blocks,
}
use clawie.AgentRunner.Output.Addressed.{Adds, dispatch_result_text-Adds}
use clawie.Tests.{no_inbound, no_outbound}

abbrev turn : Turn
turn = record {
  now = 30;
  id_of = λ n. if n == 0 then "out-1" else "out-2";
  entries =
      record {
        name = "family";
        target = channel;
        channel_type = some "telegram";
        platform_id = some "-100";
        agent_group_id = none;
      }
      ∷ record {
        name = "writer";
        target = agent;
        channel_type = none;
        platform_id = none;
        agent_group_id = some "ag-writer";
      }
      ∷ [];
  routing = record { in_reply_to = some "m1" };
  inbound = no_inbound;
}

abbrev answer : List Written
answer =
    record { to_name = "family"; body = " Dinner is < 7 pm. " }
    ∷ record { to_name = "writer"; body = "Done." }
    ∷ []

answer-IsPrintable : All IsPrintable answer
answer-IsPrintable = (
  record { named = refl; unquoted = refl; unclosed = refl },
  (record { named = refl; unquoted = refl; unclosed = refl }, tt),
)

answer-IsKnown : All (IsKnown turn) answer
unfolding clawie.AgentRunner.Output.find_by_name
answer-IsKnown = (refl, (refl, tt))

ids_apart : (j k : ℕ) → 0 ≤ j → j < k → k < 0 + 2 → str_eq (turn.id_of j) (turn.id_of k) ≡ false
ids_apart zero zero h less below = absurd (omega (arith, less))
ids_apart zero (suc zero) h less below = refl
ids_apart zero (suc (suc k)) h less below = absurd (omega (arith, below))
ids_apart (suc j) k h less below = absurd (omega (arith, less, below))

answer-IsFresh : IsFresh turn 0 2 []
answer-IsFresh = record { absent = λ k h below. refl; apart = ids_apart }

-- What is internal is neither sent nor taken for text without a block.
internal_unsent :
    dispatch_result_text turn "<internal>hm</internal>" no_outbound
    ≡ some (record { outbound = no_outbound; sent = 0; has_unwrapped = false })
unfolding dispatch_result_text
internal_unsent = refl

dispatch_result_text-print_blocks_example :
    (r : DispatchResult) × (dispatch_result_text turn (print_blocks answer) no_outbound ≡ some r)
    × SendsAll turn 0 answer no_outbound r.outbound r.sent
dispatch_result_text-print_blocks_example =
    dispatch_result_text-print_blocks turn answer no_outbound answer-IsPrintable answer-IsKnown
      answer-IsFresh

abbrev told : MessageOut
told = record {
  id = "out-1";
  seq = 1;
  in_reply_to = some "m1";
  timestamp = 30;
  deliver_after = none;
  kind = "chat";
  platform_id = some "-100";
  channel_type = some "telegram";
  thread_id = none;
  content = clawie.Tests.says "Dinner";
}

abbrev told_db : OutboundDb
told_db = record no_outbound { messages_out = told ∷ [] }

told_once :
    dispatch_result_text turn "So:<message  to=\"family\" > Dinner</message> done" no_outbound
    ≡ some (record { outbound = told_db; sent = 1; has_unwrapped = false })
unfolding dispatch_result_text clawie.AgentRunner.next_odd_seq
told_once = refl

dispatch_result_text-Adds_example : Adds turn no_outbound told_db 1
dispatch_result_text-Adds_example =
    dispatch_result_text-Adds turn "So:<message  to=\"family\" > Dinner</message> done" no_outbound
      (record { outbound = told_db; sent = 1; has_unwrapped = false }) told_once
