-- ===== src/AgentRunner/Output/Addressed.antt =====
-- Where the final text of an agent can send messages.
use mathlib.Core.Path.{subst}
use mathlib.Core.List.{Memᴰ, append_assoc, append-nil}
use clawie.Prelude.{
  ℕ, String, Option, none, some, List, [], ◌∷◌, ◌++◌, ◌≡◌, refl, sym, ap, ◌∙◌, arith, if-intro,
  str_eq, length, length-append, All, All-append, exists, ◌||◌, ◌==◌, find-Memᴰ,
}
use clawie.CommandGate.{trim_start, trim_end}
use clawie.SessionDb.{OutboundDb, MessageOut, MessageIn}
use clawie.AgentRunner.{WriteMessageOut, next_odd_seq, new_out_row, write_message_out}
use clawie.AgentRunner.Output.{
  Piece, outside, block, pieces, text_length, Turn, DestinationEntry, RoutingContext, find_by_name,
  latest_from, address_of, reply, Dispatch, sent_with, send_to, send_to_destination, dispatch_piece,
  then_dispatch, dispatch_pieces, DispatchResult, result_of, start, dispatch_result_text,
}

-- a message to one of the destinations
pub record IsAddressed (turn : Turn) (row : MessageOut) : Type 0 where
  pub dest : DestinationEntry
  pub known : Memᴰ dest turn.entries
  pub address : (row.channel_type, row.platform_id) ≡ address_of dest

-- the rows that were added, one for each block that was sent
pub record Adds (turn : Turn) (before after : OutboundDb) (sent : ℕ) : Type 0 where
  pub rows : List MessageOut
  pub added : after.messages_out ≡ before.messages_out ++ rows
  pub counted : length rows ≡ sent
  pub addressed : All (IsAddressed turn) rows

abbrev AddsIn : Turn → OutboundDb → Option Dispatch → Type 0
AddsIn turn before none = Unit
AddsIn turn before (some d) = Adds turn before d.outbound d.sent

module _ (turn : Turn) (before : OutboundDb) where
  sent_with-Adds :
      (d : Dispatch) (dest : DestinationEntry) (msg : WriteMessageOut)
      → Memᴰ dest turn.entries
      → (msg.channel_type, msg.platform_id) ≡ address_of dest
      → Adds turn before d.outbound d.sent
      → AddsIn turn before (sent_with d (write_message_out turn.now msg turn.inbound d.outbound))
  unfolding write_message_out
  sent_with-Adds d dest msg known address h =
      let seq = next_odd_seq turn.inbound d.outbound in
      let row = new_out_row turn.now seq msg in
      if-intro (λ o. AddsIn turn before (sent_with d o))
        (exists (λ (m : MessageOut). str_eq m.id msg.id || m.seq == seq) d.outbound.messages_out)
        (λ _. tt)
        (λ _. record {
          rows = h.rows ++ row ∷ [];
          added =
              ap (λ l. l ++ row ∷ []) h.added ∙ append_assoc before.messages_out h.rows (row ∷ []);
          counted = omega (arith, length-append h.rows (row ∷ []), h.counted);
          addressed =
              All-append (IsAddressed turn) h.rows (row ∷ []) h.addressed
                (record { dest = dest; known = known; address = address }, tt);
        })

  address-reply :
      (id body : String) (a : Option String × Option String) (routing : RoutingContext)
      (o : Option MessageIn)
      → ((reply id a body routing o).channel_type, (reply id a body routing o).platform_id) ≡ a
  address-reply id body (c, p) routing none = refl
  address-reply id body (c, p) routing (some m) = refl

  send_to-Adds :
      (d : Dispatch) (name body : String) (o : Option DestinationEntry)
      → find_by_name name turn.entries ≡ o
      → Adds turn before d.outbound d.sent
      → AddsIn turn before (send_to turn name body o d)
  unfolding send_to_destination find_by_name
  send_to-Adds d name body none e h = h
  send_to-Adds d name body (some dest) e h =
      let (channel_type, platform_id) = address_of dest in
      let latest = latest_from channel_type platform_id turn.inbound in
      sent_with-Adds d dest
        (reply (turn.id_of d.sent) (channel_type, platform_id) body turn.routing latest)
        (find-Memᴰ (λ (x : DestinationEntry). str_eq x.name name) turn.entries dest e)
        (address-reply (turn.id_of d.sent) body (channel_type, platform_id) turn.routing latest) h

  dispatch_piece-Adds :
      (p : Piece) (d : Dispatch)
      → Adds turn before d.outbound d.sent
      → AddsIn turn before (dispatch_piece turn p d)
  unfolding dispatch_piece
  dispatch_piece-Adds (outside c) d h = h
  dispatch_piece-Adds (block name body) d h =
      send_to-Adds d name (trim_end (trim_start body)) (find_by_name name turn.entries) refl h

  then_dispatch-Adds :
      (f : Dispatch → Option Dispatch) (o : Option Dispatch)
      → ((d : Dispatch) → Adds turn before d.outbound d.sent → AddsIn turn before (f d))
      → AddsIn turn before o
      → AddsIn turn before (then_dispatch f o)
  then_dispatch-Adds f none keeps h = tt
  then_dispatch-Adds f (some d) keeps h = keeps d h

  dispatch_pieces-Adds :
      (ps : List Piece) (d : Dispatch)
      → Adds turn before d.outbound d.sent
      → AddsIn turn before (dispatch_pieces turn ps d)
  unfolding dispatch_pieces
  dispatch_pieces-Adds [] d h = h
  dispatch_pieces-Adds (p ∷ ps) d h =
      then_dispatch-Adds (dispatch_pieces turn ps) (dispatch_piece turn p d)
        (λ d' h'. dispatch_pieces-Adds ps d' h') (dispatch_piece-Adds p d h)

  abbrev AddsResult : Option DispatchResult → Type 0
  AddsResult none = Unit
  AddsResult (some r) = Adds turn before r.outbound r.sent

  result_of-Adds : (o : Option Dispatch) → AddsIn turn before o → AddsResult (result_of o)
  result_of-Adds none h = tt
  result_of-Adds (some d) h = h

-- Whatever the final text of an agent is, the rows that it adds to `messages_out` are as many as the
-- blocks that it counts as sent, after those that were there, and each has the channel and the
-- address of a destination of the agent.
pub dispatch_result_text-Adds :
    (turn : Turn) (s : String) (before : OutboundDb) (r : DispatchResult)
    → dispatch_result_text turn s before ≡ some r
    → Adds turn before r.outbound r.sent
unfolding dispatch_result_text
dispatch_result_text-Adds turn s before r e =
    let none_yet : Adds turn before before 0 = record {
      rows = [];
      added = sym (append-nil before.messages_out);
      counted = refl;
      addressed = tt;
    } in
    subst (AddsResult turn before) e (
      result_of-Adds turn before (dispatch_pieces turn (pieces (text_length s) s) (start before))
        (dispatch_pieces-Adds turn before (pieces (text_length s) s) (start before) none_yet))
