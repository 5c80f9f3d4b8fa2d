-- ===== src/AgentRunner/Output/Printed.antt =====
-- The final text of an agent that writes nothing but blocks.
use Prim.Native.String.{[] as empty, ◌∷◌ as str_cons, ◌++◌ as str_append}
use mathlib.Core.Path.{subst}
use mathlib.Core.List.{append_assoc, append-nil}
use package.text.Mathlib.TextLemmas.{cons-append, nil-append}
use clawie.Prelude.{
  ℕ, zero, suc, ◌+◌, ◌≤◌, String, true, Option, none, some, List, [], ◌∷◌, map, ◌≡◌, refl, ap, ◌∙◌,
  arith, false≢true, is_some, length, All, ◌<◌, ◌++◌, exists, str_eq, false, sym, exists-append,
}
use clawie.CommandGate.{trim_start, trim_end}
use clawie.Json.{json, object, field, text, end}
use clawie.SessionDb.{InboundDb, OutboundDb, MessageOut, MessageIn}
use clawie.AgentRunner.{WriteMessageOut, next_odd_seq, new_out_row, write_message_out}
use clawie.AgentRunner.Seq.{out_seq_free}
use clawie.AgentRunner.Output.{
  Block, match_block, Piece, block, next_piece, pieces, text_length, Turn, DestinationEntry,
  find_by_name, latest_from, address_of, reply, sent_with, DispatchResult, Dispatch, send_to,
  send_to_destination, dispatch_piece, then_dispatch, dispatch_pieces, result_of, start,
  dispatch_result_text,
}
use clawie.AgentRunner.Output.Blocks.{Written, print_block, IsPrintable, match_block-print_block}

abbrev pub print_blocks : List Written → String
print_blocks [] = ""
print_blocks (b ∷ bs) = print_block b (print_blocks bs)

abbrev piece_of : Written → Piece
piece_of b = block b.to_name b.body

pieces-match :
    (n : ℕ) (s : String) (b : Block)
    → match_block s ≡ some b
    → pieces (suc n) s ≡ block b.to_name b.body ∷ pieces n b.rest
unfolding pieces
pieces-match n empty b e = absurd (false≢true (ap is_some e))
pieces-match n (str_cons c s) b e = ap (next_piece c s (pieces n)) e

pieces-print_blocks :
    (n : ℕ) (l : List Written)
    → length l ≤ n
    → All IsPrintable l
    → pieces n (print_blocks l) ≡ map piece_of l
unfolding pieces
pieces-print_blocks zero [] enough ok = refl
pieces-print_blocks (suc n) [] enough ok = refl
pieces-print_blocks zero (b ∷ l) enough ok = absurd (omega (arith, enough))
pieces-print_blocks (suc n) (b ∷ l) enough ok =
    pieces-match n (print_blocks (b ∷ l))
      (record { to_name = b.to_name; body = b.body; rest = print_blocks l })
      (match_block-print_block b (print_blocks l) ok.0)
    ∙ ap (λ ps. piece_of b ∷ ps) (pieces-print_blocks n l (omega (arith, enough)) ok.1)

text_length-append : (s t : String) → text_length (str_append s t) ≡ text_length s + text_length t
text_length-append empty t = omega (arith, ap text_length (nil-append t))
text_length-append (str_cons c s) t =
    ap text_length (cons-append c s t) ∙ omega (arith, text_length-append s t)

text_length-le : (s t : String) → text_length t ≤ text_length (str_append s t)
text_length-le s t = omega (arith, text_length-append s t)

text_length-print_block :
    (b : Written) (rest : String) → suc (text_length rest) ≤ text_length (print_block b rest)
text_length-print_block b rest =
    let t1 = str_append "</message>" rest in
    let t2 = str_append b.body t1 in
    let t3 = str_append ">" t2 in
    let t4 = str_append "\"" t3 in
    let t5 = str_append b.to_name t4 in
    let t6 = str_append "to=\"" t5 in
    let t7 = str_append " " t6 in
    omega (
      arith,
      text_length-append "<message" t7,
      text_length-le " " t6,
      text_length-le "to=\"" t5,
      text_length-le b.to_name t4,
      text_length-le "\"" t3,
      text_length-le ">" t2,
      text_length-le b.body t1,
      text_length-le "</message>" rest,
    )

-- A text has at least as many characters as blocks.
length-print_blocks : (l : List Written) → length l ≤ text_length (print_blocks l)
length-print_blocks [] = omega arith
length-print_blocks (b ∷ l) =
    omega (arith, text_length-print_block b (print_blocks l), length-print_blocks l)

abbrev pub IsKnown : Turn → Written → Type 0
IsKnown turn b = is_some (find_by_name b.to_name turn.entries) ≡ true

-- The message of the block `b`, the one with the number `n` of the text: its text is trimmed, and its
-- address is the destination's.
pub record IsSent (turn : Turn) (n : ℕ) (b : Written) (row : MessageOut) : Type 0 where
  pub dest : DestinationEntry
  pub known : find_by_name b.to_name turn.entries ≡ some dest
  pub address : (row.channel_type, row.platform_id) ≡ address_of dest
  pub id : row.id ≡ turn.id_of n
  pub kind : row.kind ≡ "chat"
  pub time : row.timestamp ≡ turn.now
  pub content : row.content ≡ json (object (field "text" (text (trim_end (trim_start b.body))) end))

-- one message for each block, in their order
abbrev pub Sends : Turn → ℕ → List Written → List MessageOut → Type 0
Sends turn n [] [] = Unit
Sends turn n (b ∷ l) (row ∷ rows) = IsSent turn n b row × Sends turn (n + 1) l rows
Sends turn n _ _ = ⊥

-- The ids that are drawn for `count` messages, from the one with the number `n` on, are new.
pub record IsFresh (turn : Turn) (n size : ℕ) (rows : List MessageOut) : Type 0 where
  pub absent :
      (k : ℕ)
      → n ≤ k
      → k < n + size
      → exists (λ (m : MessageOut). str_eq m.id (turn.id_of k)) rows ≡ false
  pub apart :
      (j k : ℕ) → n ≤ j → j < k → k < n + size → str_eq (turn.id_of j) (turn.id_of k) ≡ false

-- the outcome of a loop that throws nothing
pub record SendsAll (turn : Turn) (n : ℕ) (l : List Written) (before : OutboundDb)
    (after : OutboundDb) (sent : ℕ) : Type 0 where
  pub rows : List MessageOut
  pub added : after.messages_out ≡ before.messages_out ++ rows
  pub in_order : Sends turn n l rows
  pub counted : sent ≡ n + length l

-- A write with a new id adds its row.
write_message_out-new :
    (now : ℕ) (msg : WriteMessageOut) (i : InboundDb) (o : OutboundDb)
    → exists (λ (m : MessageOut). str_eq m.id msg.id) o.messages_out ≡ false
    → write_message_out now msg i o
      ≡ some (
        record o { messages_out = o.messages_out ++ new_out_row now (next_odd_seq i o) msg ∷ [] },
        next_odd_seq i o,
      )
unfolding write_message_out
write_message_out-new now msg i o free = rw (out_seq_free i o msg.id) (rw free refl)

module _ (turn : Turn) where
  reply-IsSent :
      (n seq : ℕ) (b : Written) (dest : DestinationEntry) (a : Option String × Option String)
      (o : Option MessageIn)
      → find_by_name b.to_name turn.entries ≡ some dest
      → a ≡ address_of dest
      → IsSent turn n b (
          new_out_row turn.now seq
            (reply (turn.id_of n) a (trim_end (trim_start b.body)) turn.routing o))
  unfolding new_out_row
  reply-IsSent n seq b dest (c, p) none known address = record {
    dest = dest;
    known = known;
    address = address;
    id = refl;
    kind = refl;
    time = refl;
    content = refl;
  }
  reply-IsSent n seq b dest (c, p) (some m) known address = record {
    dest = dest;
    known = known;
    address = address;
    id = refl;
    kind = refl;
    time = refl;
    content = refl;
  }

  -- what one block does
  abbrev SendsOne : Written → Dispatch → Option Dispatch → Type 0
  SendsOne b d none = ⊥
  SendsOne b d (some d') =
      (row : MessageOut) × IsSent turn d.sent b row
      × (d'.outbound.messages_out ≡ d.outbound.messages_out ++ row ∷ [])
      × (d'.sent ≡ d.sent + 1)

  sent_with-SendsOne :
      (b : Written) (d : Dispatch) (msg : WriteMessageOut)
      → exists (λ (m : MessageOut). str_eq m.id msg.id) d.outbound.messages_out ≡ false
      → IsSent turn d.sent b (new_out_row turn.now (next_odd_seq turn.inbound d.outbound) msg)
      → SendsOne b d (sent_with d (write_message_out turn.now msg turn.inbound d.outbound))
  sent_with-SendsOne b d msg free sent =
      rw (write_message_out-new turn.now msg turn.inbound d.outbound free)
        (new_out_row turn.now (next_odd_seq turn.inbound d.outbound) msg, sent, refl, refl)

  reply-id :
      (id : String) (a : Option String × Option String) (body : String) (o : Option MessageIn)
      → (reply id a body turn.routing o).id ≡ id
  reply-id id (c, p) body none = refl
  reply-id id (c, p) body (some m) = refl

  send_to_destination-SendsOne :
      (b : Written) (d : Dispatch) (dest : DestinationEntry)
      → find_by_name b.to_name turn.entries ≡ some dest
      → exists (λ (m : MessageOut). str_eq m.id (turn.id_of d.sent)) d.outbound.messages_out ≡ false
      → SendsOne b d (send_to_destination turn dest (trim_end (trim_start b.body)) d)
  unfolding send_to_destination
  send_to_destination-SendsOne b d dest known free =
      let (channel_type, platform_id) = address_of dest in
      let latest = latest_from channel_type platform_id turn.inbound in
      let body = trim_end (trim_start b.body) in
      sent_with-SendsOne b d
        (reply (turn.id_of d.sent) (channel_type, platform_id) body turn.routing latest)
        (rw (reply-id (turn.id_of d.sent) (channel_type, platform_id) body latest) free)
        (reply-IsSent d.sent (next_odd_seq turn.inbound d.outbound) b dest
          (channel_type, platform_id) latest known refl)

  block-SendsOne :
      (b : Written) (d : Dispatch) (o : Option DestinationEntry)
      → find_by_name b.to_name turn.entries ≡ o
      → is_some o ≡ true
      → exists (λ (m : MessageOut). str_eq m.id (turn.id_of d.sent)) d.outbound.messages_out ≡ false
      → SendsOne b d (send_to turn b.to_name (trim_end (trim_start b.body)) o d)
  block-SendsOne b d none known there free = absurd (false≢true there)
  block-SendsOne b d (some dest) known there free = send_to_destination-SendsOne b d dest known free

  later-IsFresh :
      (n size : ℕ) (rows : List MessageOut) (row : MessageOut)
      → row.id ≡ turn.id_of n
      → IsFresh turn n (suc size) rows
      → IsFresh turn (n + 1) size (rows ++ row ∷ [])
  later-IsFresh n size rows row own fresh = record {
    absent = λ k from below.
        exists-append (λ (m : MessageOut). str_eq m.id (turn.id_of k)) rows row
        ∙ (let own_apart : str_eq row.id (turn.id_of k) ≡ false =
              rw own (fresh.apart n k (omega arith) (omega (arith, from)) (omega (arith, below))) in
            ground (arith, own_apart, fresh.absent k (omega (arith, from)) (omega (arith, below))));
    apart =
        λ j k from less below. fresh.apart j k (omega (arith, from)) less (omega (arith, below));
  }

  -- the outcome of the loop from one state
  abbrev SendsFrom : List Written → Dispatch → Option Dispatch → Type 0
  SendsFrom l d none = ⊥
  SendsFrom l d (some d') = SendsAll turn d.sent l d.outbound d'.outbound d'.sent

  one_more :
      (b : Written) (l : List Written) (d d1 : Dispatch) (row : MessageOut) (o : Option Dispatch)
      → IsSent turn d.sent b row
      → d1.outbound.messages_out ≡ d.outbound.messages_out ++ row ∷ []
      → d1.sent ≡ d.sent + 1
      → SendsFrom l d1 o
      → SendsFrom (b ∷ l) d o
  one_more b l d d1 row none sent added counted rest = rest
  one_more b l d d1 row (some d') sent added counted rest = record {
    rows = row ∷ rest.rows;
    added =
        rest.added
        ∙ ap (λ ms. ms ++ rest.rows) added
        ∙ append_assoc d.outbound.messages_out (row ∷ []) rest.rows;
    in_order = (sent, subst (λ n. Sends turn n l rest.rows) counted rest.in_order);
    counted = omega (arith, rest.counted, counted);
  }

  then_rest :
      (b : Written) (l : List Written) (d : Dispatch) (o : Option Dispatch)
      → ((d1 : Dispatch)
          → IsFresh turn d1.sent (length l) d1.outbound.messages_out
          → SendsFrom l d1 (dispatch_pieces turn (map piece_of l) d1))
      → IsFresh turn d.sent (suc (length l)) d.outbound.messages_out
      → SendsOne b d o
      → SendsFrom (b ∷ l) d (then_dispatch (dispatch_pieces turn (map piece_of l)) o)
  then_rest b l d none rest fresh h = h
  then_rest b l d (some d1) rest fresh (row, sent, added, counted) =
      let later : IsFresh turn d1.sent (length l) d1.outbound.messages_out =
        rw (counted, added)
          (later-IsFresh d.sent (length l) d.outbound.messages_out row sent.id fresh) in
      one_more b l d d1 row (dispatch_pieces turn (map piece_of l) d1) sent added counted
        (rest d1 later)

  dispatch_pieces-SendsFrom :
      (l : List Written) (d : Dispatch)
      → IsFresh turn d.sent (length l) d.outbound.messages_out
      → All (IsKnown turn) l
      → SendsFrom l d (dispatch_pieces turn (map piece_of l) d)
  unfolding dispatch_pieces dispatch_piece
  dispatch_pieces-SendsFrom [] d fresh known = record {
    rows = [];
    added = sym (append-nil d.outbound.messages_out);
    in_order = tt;
    counted = omega arith;
  }
  dispatch_pieces-SendsFrom (b ∷ l) d fresh known =
      then_rest b l d
        (send_to turn b.to_name (trim_end (trim_start b.body)) (find_by_name b.to_name turn.entries)
          d)
        (λ d1 fresh1. dispatch_pieces-SendsFrom l d1 fresh1 known.1) fresh
        (block-SendsOne b d (find_by_name b.to_name turn.entries) refl known.0
          (fresh.absent d.sent (omega arith) (omega arith)))

as_result :
    (turn : Turn) (l : List Written) (before : OutboundDb) (o : Option Dispatch)
    → SendsFrom turn l (start before) o
    → (r : DispatchResult) × (result_of o ≡ some r) × SendsAll turn 0 l before r.outbound r.sent
as_result turn l before none h = absurd h
as_result turn l before (some d) h = (_, refl, h)

-- Where the final text is blocks, one after the other, each with the name of a destination and a text
-- that does not close the block, and the ids drawn for them are new, the dispatch throws nothing. It
-- adds one message for each block, in their order, with its text trimmed and the address of its
-- destination, and counts them.
pub dispatch_result_text-print_blocks :
    (turn : Turn) (l : List Written) (before : OutboundDb)
    → All IsPrintable l
    → All (IsKnown turn) l
    → IsFresh turn 0 (length l) before.messages_out
    → (r : DispatchResult) × (dispatch_result_text turn (print_blocks l) before ≡ some r)
      × SendsAll turn 0 l before r.outbound r.sent
unfolding dispatch_result_text
dispatch_result_text-print_blocks turn l before ok known fresh =
    rw (pieces-print_blocks (text_length (print_blocks l)) l (length-print_blocks l) ok) (
      as_result turn l before (dispatch_pieces turn (map piece_of l) (start before))
        (dispatch_pieces-SendsFrom turn l (start before) fresh known))
