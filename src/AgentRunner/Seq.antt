-- ===== src/AgentRunner/Seq.antt =====
-- The numbering of messages by the host (src/db/session-db.ts) and by the container
-- (container/agent-runner/src/db/messages-out.ts), over any interleaving of their writes.
use clawie.Prelude.{
  ℕ, ◌%◌, ◌<◌, String, ◌≡◌, ◌↔◌, refl, true, ◌||◌, none, some, List, [], ◌∷◌, ◌++◌, map, arith,
  ◌==◌, str_eq, All, All-append, max_of, exists, find-or_above,
}
use clawie.SessionDb.{
  MessageIn, MessageOut, NewMessage, InboundDb, OutboundDb, insert_message, next_even_seq,
  insert_row, new_row,
}
use clawie.AgentRunner.{WriteMessageOut, write_message_out, new_out_row, next_odd_seq}

abbrev pub in_seqs : InboundDb → List ℕ
in_seqs db = map (λ (m : MessageIn). m.seq) db.messages_in

abbrev pub out_seqs : OutboundDb → List ℕ
out_seqs db = map (λ (m : MessageOut). m.seq) db.messages_out

pub next_even_seq-above :
    (rows : List MessageIn)
    → (max_of (λ (m : MessageIn). m.seq) rows < next_even_seq rows) × (next_even_seq rows % 2 ≡ 0)
unfolding next_even_seq
next_even_seq-above rows = ground arith

pub next_odd_seq-above :
    (inbound : InboundDb) (outbound : OutboundDb)
    → (max_of (λ (m : MessageIn). m.seq) inbound.messages_in < next_odd_seq inbound outbound)
      × (max_of (λ (m : MessageOut). m.seq) outbound.messages_out < next_odd_seq inbound outbound)
      × (next_odd_seq inbound outbound % 2 ≡ 1)
unfolding next_odd_seq
next_odd_seq-above inbound outbound = ground arith

in_seq_free :
    (rows : List MessageIn) (id : String)
    → exists (λ (r : MessageIn). str_eq r.id id || r.seq == next_even_seq rows) rows
      ≡ exists (λ (r : MessageIn). str_eq r.id id) rows
in_seq_free rows id =
    find-or_above (λ (r : MessageIn). str_eq r.id id)
      (λ (r : MessageIn). r.seq == next_even_seq rows) (λ (r : MessageIn). r.seq) rows
      (next_even_seq rows) (λ r h. ground arith) (next_even_seq-above rows).0

-- An insert of a message fails exactly when its id is taken: the number that it is given is
-- always free.
pub insert_message-none_iff :
    (db : InboundDb) (m : NewMessage)
    → (insert_message db m ≡ none)
      ↔ (exists (λ (r : MessageIn). str_eq r.id m.id) db.messages_in ≡ true)
unfolding insert_message
insert_message-none_iff db m = rw (in_seq_free db.messages_in m.id) (ground arith)

pub map-snoc {ℓ κ} :
    {A : Type ℓ} {B : Type κ} (f : A → B) (xs : List A) (x : A)
    → map f (xs ++ x ∷ []) ≡ map f xs ++ f x ∷ []
map-snoc f [] x = refl
map-snoc f (y ∷ xs) x = rw (map-snoc f xs x)

-- Each number is below all that stand after it.
abbrev pub Ascending : List ℕ → Type 0
Ascending [] = Unit
Ascending (x ∷ xs) = All (λ y. x < y) xs × Ascending xs

pub Ascending-snoc :
    (xs : List ℕ) (n : ℕ) → All (λ x. x < n) xs → Ascending xs → Ascending (xs ++ n ∷ [])
Ascending-snoc [] n h a = (tt, tt)
Ascending-snoc (x ∷ xs) n h a =
    (All-append (λ y. x < y) xs (n ∷ []) a.0 (h.0, tt), Ascending-snoc xs n h.1 a.1)

-- What the host and the container keep of their numbering.
pub record IsNumbered (inbound : InboundDb) (outbound : OutboundDb) : Type 0 where
  pub even : All (λ n. n % 2 ≡ 0) (in_seqs inbound)
  pub odd : All (λ n. n % 2 ≡ 1) (out_seqs outbound)
  pub in_ascending : Ascending (in_seqs inbound)
  pub out_ascending : Ascending (out_seqs outbound)

-- A row that SQLite accepts is the last of its table.
pub insert_row-seqs :
    (row : MessageIn) (db db' : InboundDb)
    → insert_row row db ≡ some db'
    → in_seqs db' ≡ in_seqs db ++ row.seq ∷ []
unfolding insert_row
insert_row-seqs row db db' h =
    ground (arith, map-snoc (λ (r : MessageIn). r.seq) db.messages_in row)

pub insert_message-seqs :
    (db : InboundDb) (m : NewMessage) {db' : InboundDb}
    → insert_message db m ≡ some db'
    → in_seqs db' ≡ in_seqs db ++ next_even_seq db.messages_in ∷ []
insert_message-seqs db m {db'} e =
    unfold insert_message new_row in
    insert_row-seqs (new_row (next_even_seq db.messages_in) m) db db' e

pub out_seq_free :
    (i : InboundDb) (o : OutboundDb) (id : String)
    → exists (λ (r : MessageOut). str_eq r.id id || r.seq == next_odd_seq i o) o.messages_out
      ≡ exists (λ (r : MessageOut). str_eq r.id id) o.messages_out
out_seq_free i o id =
    find-or_above (λ (r : MessageOut). str_eq r.id id)
      (λ (r : MessageOut). r.seq == next_odd_seq i o) (λ (r : MessageOut). r.seq) o.messages_out
      (next_odd_seq i o) (λ r h. ground arith) (next_odd_seq-above i o).1

pub write_message_out-seqs :
    (now : ℕ) (m : WriteMessageOut) (inbound : InboundDb) (outbound db' : OutboundDb) (n : ℕ)
    → write_message_out now m inbound outbound ≡ some (db', n)
    → (n ≡ next_odd_seq inbound outbound) × (out_seqs db' ≡ out_seqs outbound ++ n ∷ [])
unfolding write_message_out
write_message_out-seqs now m inbound outbound db' n h =
    let row = new_out_row now (next_odd_seq inbound outbound) m in
    ground (arith, map-snoc (λ (r : MessageOut). r.seq) outbound.messages_out row)

pub All-below_max {ℓ} :
    {A : Type ℓ} (f : A → ℕ) (xs : List A) (n : ℕ) → max_of f xs < n → All (λ k. k < n) (map f xs)
All-below_max f [] n h = tt
All-below_max f (x ∷ xs) n h = (omega arith, All-below_max f xs n (omega arith))

abbrev pub row_seq : MessageIn → ℕ
row_seq m = m.seq

write_message_out-none_iff :
    (now : ℕ) (m : WriteMessageOut) (i : InboundDb) (o : OutboundDb)
    → (write_message_out now m i o ≡ none)
      ↔ (exists (λ (r : MessageOut). str_eq r.id m.id) o.messages_out ≡ true)
unfolding write_message_out
write_message_out-none_iff now m i o = rw (out_seq_free i o m.id) (ground arith)

-- A write by the container fails exactly when its id is taken, and is otherwise the last message
-- of its table, with a number above those of both tables.
pub write_message_out_lem :
    (now : ℕ) (m : WriteMessageOut) (i : InboundDb) (o : OutboundDb)
    → ((write_message_out now m i o ≡ none)
        ↔ (exists (λ (r : MessageOut). str_eq r.id m.id) o.messages_out ≡ true))
      × ((o' : OutboundDb) (n : ℕ)
          → write_message_out now m i o ≡ some (o', n)
          → All (λ k. k < n) (in_seqs i)
            × All (λ k. k < n) (out_seqs o)
            × (out_seqs o' ≡ out_seqs o ++ n ∷ []))
write_message_out_lem now m i o = (write_message_out-none_iff now m i o, accepted)
  where
    above :
        (max_of row_seq i.messages_in < next_odd_seq i o)
        × (max_of (λ (r : MessageOut). r.seq) o.messages_out < next_odd_seq i o)
        × (next_odd_seq i o % 2 ≡ 1)
    above = next_odd_seq-above i o

    accepted :
        (o' : OutboundDb) (n : ℕ)
        → write_message_out now m i o ≡ some (o', n)
        → All (λ k. k < n) (in_seqs i)
          × All (λ k. k < n) (out_seqs o)
          × (out_seqs o' ≡ out_seqs o ++ n ∷ [])
    accepted o' n e =
        let (n-eq, seqs) = write_message_out-seqs now m i o o' n e in
        (
          All-below_max row_seq i.messages_in n (rw n-eq above.0),
          All-below_max (λ (r : MessageOut). r.seq) o.messages_out n (rw n-eq above.1),
          seqs,
        )
