-- ===== src/AgentRunner/Output.antt =====
-- The end of a turn of the agent: `dispatchResultText` of container/agent-runner/src/poll-loop.ts
-- sends the blocks of its final text, with `stripInternalTags` of formatter.ts and the look-ups of
-- destinations.ts.
pub mod Patterns
pub mod Blocks
pub mod Printed
pub mod Addressed
pub mod Fuel
unfoldable pub use Patterns.*
use Prim.Native.Char.{Char, code}
use Prim.Native.String.{[] as empty, ◌∷◌ as str_cons, ◌++◌ as str_append}
use clawie.Prelude.{
  ℕ, zero, suc, ◌+◌, String, Bool, true, false, not, ◌&&◌, Option, none, some, List, [], ◌∷◌,
  if◌then◌else◌, str_eq, sql_eq, ◌==◌, leb, find, select, order_by, or_else,
}
use clawie.Json.{json, object, field, text, end}
use clawie.SessionDb.{InboundDb, OutboundDb, MessageIn}
use clawie.Central.{TargetType, channel, agent}
use clawie.CommandGate.{trim_start, trim_end, is_space}
use clawie.Paths.{cons_prefix}
use clawie.AgentRunner.{WriteMessageOut, write_message_out}

-- Sending

pub record DestinationEntry : Type 0 where
  pub name : String
  pub target : TargetType
  pub channel_type : Option String
  pub platform_id : Option String
  pub agent_group_id : Option String

unfoldable pub find_by_name : String → List DestinationEntry → Option DestinationEntry
find_by_name name entries = find (λ (d : DestinationEntry). str_eq d.name name) entries

-- Where an answer goes by default, and the message that it answers.
pub record RoutingContext : Type 0 where
  pub in_reply_to : Option String

abbrev pub is_from_destination : Option String → Option String → MessageIn → Bool
is_from_destination (some channel_type) (some platform_id) m =
    sql_eq m.channel_type channel_type && sql_eq m.platform_id platform_id
is_from_destination channel_type platform_id m = false

-- `resolveDestinationThread`: the latest message from a destination
unfoldable pub latest_from : Option String → Option String → InboundDb → Option MessageIn
latest_from channel_type platform_id inbound =
    find (λ (m : MessageIn). true)
      (order_by (λ (a b : MessageIn). leb b.seq a.seq)
        (select (is_from_destination channel_type platform_id) inbound.messages_in))

abbrev pub address_of : DestinationEntry → Option String × Option String
address_of dest = elim dest.target [
  | channel ↦ (dest.channel_type, dest.platform_id)
  | agent ↦ (some "agent", dest.agent_group_id)
]

abbrev pub reply :
    String
    → Option String × Option String
    → String
    → RoutingContext
    → Option MessageIn
    → WriteMessageOut
reply id (channel_type, platform_id) body routing none = record {
  id = id;
  in_reply_to = routing.in_reply_to;
  deliver_after = none;
  kind = "chat";
  platform_id = platform_id;
  channel_type = channel_type;
  thread_id = none;
  content = json (object (field "text" (text body) end));
}
reply id (channel_type, platform_id) body routing (some m) = record {
  id = id;
  in_reply_to = some m.id;
  deliver_after = none;
  kind = "chat";
  platform_id = platform_id;
  channel_type = channel_type;
  thread_id = m.thread_id;
  content = json (object (field "text" (text body) end));
}

-- What the loop keeps: the texts that were not sent, and the number of blocks that were.
pub record Dispatch : Type 0 where
  pub outbound : OutboundDb
  pub sent : ℕ
  pub scratchpad : String

-- What a turn has from outside: the clock, an id for each message, and the container's tables.
pub record Turn : Type 0 where
  pub now : ℕ
  pub id_of : ℕ → String
  pub entries : List DestinationEntry
  pub routing : RoutingContext
  pub inbound : InboundDb

abbrev pub sent_with : Dispatch → Option (OutboundDb × ℕ) → Option Dispatch
sent_with d none = none
sent_with d (some (outbound, seq)) = some (record d { outbound = outbound; sent = d.sent + 1 })

-- `sendToDestination`; `none` is an exception of the INSERT
unfoldable pub send_to_destination : Turn → DestinationEntry → String → Dispatch → Option Dispatch
unfolding latest_from write_message_out
send_to_destination turn dest body d =
    let (channel_type, platform_id) = address_of dest in
    sent_with d (
      write_message_out turn.now
        (reply (turn.id_of d.sent) (channel_type, platform_id) body turn.routing
          (latest_from channel_type platform_id turn.inbound))
        turn.inbound d.outbound)

abbrev pub dropped : String → String → String
dropped name body =
    str_append "[dropped: unknown destination \"" (str_append name (str_append "\"] " body))

abbrev pub send_to : Turn → String → String → Option DestinationEntry → Dispatch → Option Dispatch
send_to turn name body none d =
    some (record d { scratchpad = str_append d.scratchpad (dropped name body) })
send_to turn name body (some dest) d = send_to_destination turn dest body d

unfoldable pub dispatch_piece : Turn → Piece → Dispatch → Option Dispatch
unfolding find_by_name send_to_destination trim_start trim_end
dispatch_piece turn (outside c) d =
    some (record d { scratchpad = str_append d.scratchpad (str_cons c empty) })
dispatch_piece turn (block name body) d =
    send_to turn name (trim_end (trim_start body)) (find_by_name name turn.entries) d

abbrev pub then_dispatch : (Dispatch → Option Dispatch) → Option Dispatch → Option Dispatch
then_dispatch next none = none
then_dispatch next (some d) = next d

unfoldable pub dispatch_pieces : Turn → List Piece → Dispatch → Option Dispatch
unfolding dispatch_piece
dispatch_pieces turn [] d = some d
dispatch_pieces turn (p ∷ ps) d = then_dispatch (dispatch_pieces turn ps) (dispatch_piece turn p d)

-- The tables, the number of blocks sent, and whether there was text but no block.
pub record DispatchResult : Type 0 where
  pub outbound : OutboundDb
  pub sent : ℕ
  pub has_unwrapped : Bool

abbrev pub result_of : Option Dispatch → Option DispatchResult
result_of none = none
result_of (some d) = some (record {
  outbound = d.outbound;
  sent = d.sent;
  has_unwrapped = d.sent == 0 && not (str_eq (strip_internal_tags d.scratchpad) "");
})

abbrev pub start : OutboundDb → Dispatch
start outbound = record { outbound = outbound; sent = 0; scratchpad = "" }

-- `dispatchResultText`
unfoldable pub dispatch_result_text : Turn → String → OutboundDb → Option DispatchResult
unfolding pieces dispatch_pieces strip_internal_tags
dispatch_result_text turn s outbound =
    result_of (dispatch_pieces turn (pieces (text_length s) s) (start outbound))
