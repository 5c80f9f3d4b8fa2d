-- ===== src/AgentRunner/Steps.antt =====
-- The writes of the host and of the container as steps on a session's two databases, and what any
-- interleaving of them keeps.
use clawie.Prelude.{
  ℕ, ◌%◌, String, ap, ◌≡◌, ◌≢◌, refl, Option, some, List, [], ◌∷◌, map, arith, All, All-append,
  map-update_where, ◌∙◌, select, sym, ◌++◌, false≢true, is_some, none, inl, inr, Option-cases,
  update_where, ◌&&◌, length,
}
use mathlib.Core.Option.{some-injective}
use mathlib.Core.Option
use clawie.Json.{Content}
use clawie.Scheduling.{
  NewTask, task_row, insert_task, recurrence_row, insert_recurrence, drop_recurrence,
  clear_recurrence, in_series, is_live, end_series, cancel_task, pause_task, resume_task,
  TaskUpdate, merge_content, apply_update, update_rows, update_task,
}
use clawie.SessionDb.{
  MessageIn, is_status, pending, paused as paused_status, MessageOut, NewMessage, InboundDb,
  OutboundDb, AckStatus, insert_message, next_even_seq, mark_message_failed, retry_with_backoff,
  sync_processing_acks, mark_delivered, mark_delivery_failed, delete_orphan_processing_claims,
  Delivered, insert_delivered, ProcessingAck, sync_all, sync_ack, has_id, set_status, is_finished,
  delay_row, is_uncompleted, failed as failed_status, completed,
}
use clawie.AgentRunner.{
  WriteMessageOut, write_message_out, replace_ack, replace_acks, clear_stale_processing_acks,
  write_request,
}
use clawie.AgentRunner.Seq.{
  in_seqs, out_seqs, row_seq, next_even_seq-above, next_odd_seq-above, Ascending-snoc, IsNumbered,
  insert_message-seqs, write_message_out-seqs, All-below_max, insert_row-seqs,
}

-- A host's or a container's write to the session's databases.
pub data Step : InboundDb → OutboundDb → InboundDb → OutboundDb → Type 0 where
  inserted :
      {i i' : InboundDb} {o : OutboundDb} (m : NewMessage)
      → insert_message i m ≡ some i'
      → Step i o i' o
  failed : {i : InboundDb} {o : OutboundDb} (id : String) → Step i o (mark_message_failed id i) o
  retried :
      {i : InboundDb} {o : OutboundDb} (now : ℕ) (id : String) (sec : ℕ)
      → Step i o (retry_with_backoff now id sec i) o
  synced : {i : InboundDb} {o : OutboundDb} → Step i o (sync_processing_acks i o) o
  delivered :
      {i : InboundDb} {o : OutboundDb} (id : String) (pid : Option String)
      → Step i o (mark_delivered id pid i) o
  undeliverable :
      {i : InboundDb} {o : OutboundDb} (id : String) → Step i o (mark_delivery_failed id i) o
  orphans_deleted :
      {i : InboundDb} {o : OutboundDb} → Step i o i (delete_orphan_processing_claims o).0
  written :
      {i : InboundDb} {o o' : OutboundDb} (now : ℕ) (m : WriteMessageOut) (n : ℕ)
      → write_message_out now m i o ≡ some (o', n)
      → Step i o i o'
  acked :
      {i : InboundDb} {o : OutboundDb} (now : ℕ) (status : AckStatus) (ids : List String)
      → Step i o i (replace_acks now status o ids)
  stale_cleared : {i : InboundDb} {o : OutboundDb} → Step i o i (clear_stale_processing_acks o)
  requested :
      {i : InboundDb} {o o' : OutboundDb} (now : ℕ) (id : String) (content : Content) (n : ℕ)
      → write_request now id content i o ≡ some (o', n)
      → Step i o i o'
  task_inserted :
      {i i' : InboundDb} {o : OutboundDb} (now : ℕ) (task : NewTask)
      → insert_task now i task ≡ some i'
      → Step i o i' o
  recurred :
      {i i' : InboundDb} {o : OutboundDb} (now : ℕ) (msg : MessageIn) (id : String) (next_run : ℕ)
      → insert_recurrence now i msg id next_run ≡ some i'
      → Step i o i' o
  recurrence_cleared :
      {i : InboundDb} {o : OutboundDb} (id : String) → Step i o (clear_recurrence i id) o
  cancelled : {i : InboundDb} {o : OutboundDb} (id : String) → Step i o (cancel_task id i) o
  paused : {i : InboundDb} {o : OutboundDb} (id : String) → Step i o (pause_task id i) o
  resumed : {i : InboundDb} {o : OutboundDb} (id : String) → Step i o (resume_task id i) o
  updated :
      {i i' : InboundDb} {o : OutboundDb} (id : String) (update : TaskUpdate) (n : ℕ)
      → update_task id update i ≡ some (i', n)
      → Step i o i' o

pub data Reach (i₀ : InboundDb) (o₀ : OutboundDb) : InboundDb → OutboundDb → Type 0 where
  here : Reach i₀ o₀ i₀ o₀
  next :
      {i i' : InboundDb} {o o' : OutboundDb} → Reach i₀ o₀ i o → Step i o i' o' → Reach i₀ o₀ i' o'

module _ (db : InboundDb) where
  mark_message_failed-seqs : (id : String) → in_seqs (mark_message_failed id db) ≡ in_seqs db
  unfolding mark_message_failed
  mark_message_failed-seqs id =
      map-update_where row_seq (has_id id) (set_status failed_status) db.messages_in (λ m. refl)

  retry_with_backoff-seqs :
      (now : ℕ) (id : String) (sec : ℕ) → in_seqs (retry_with_backoff now id sec db) ≡ in_seqs db
  unfolding retry_with_backoff
  retry_with_backoff-seqs now id sec =
      map-update_where row_seq (has_id id) (delay_row now sec) db.messages_in (λ m. refl)

  insert_delivered-messages_in :
      (row : Delivered) → (insert_delivered row db).messages_in ≡ db.messages_in
  unfolding insert_delivered
  insert_delivered-messages_in row = ground arith

sync_all-seqs :
    (db : InboundDb) (acks : List ProcessingAck) → in_seqs (sync_all db acks) ≡ in_seqs db
unfolding sync_all sync_ack
sync_all-seqs db [] = refl
sync_all-seqs db (ack ∷ acks) =
    sync_all-seqs (sync_ack db ack) acks
    ∙ map-update_where row_seq (is_uncompleted ack.message_id) (set_status completed) db.messages_in
        (λ m. refl)

replace_acks-messages_out :
    (now : ℕ) (status : AckStatus) (db : OutboundDb) (ids : List String)
    → (replace_acks now status db ids).messages_out ≡ db.messages_out
unfolding replace_acks
replace_acks-messages_out now status db [] = refl
replace_acks-messages_out now status db (id ∷ ids) =
    replace_acks-messages_out now status (replace_ack now status db id) ids

module _ {i : InboundDb} {o : OutboundDb} (h : IsNumbered i o) where
  -- A host's write that leaves the numbers of messages_in.
  same_in : {i' : InboundDb} → in_seqs i' ≡ in_seqs i → IsNumbered i' o
  same_in e = record {
    even = rw e h.even;
    odd = h.odd;
    in_ascending = rw e h.in_ascending;
    out_ascending = h.out_ascending;
  }

  same_out : {o' : OutboundDb} → o'.messages_out ≡ o.messages_out → IsNumbered i o'
  same_out e = record {
    even = h.even;
    odd = rw e h.odd;
    in_ascending = h.in_ascending;
    out_ascending = rw e h.out_ascending;
  }

insert_task-seqs :
    (now : ℕ) (i : InboundDb) (task : NewTask) {i' : InboundDb}
    → insert_task now i task ≡ some i'
    → in_seqs i' ≡ in_seqs i ++ next_even_seq i.messages_in ∷ []
unfolding insert_task task_row
insert_task-seqs now i task {i'} e =
    insert_row-seqs (task_row now (next_even_seq i.messages_in) task) i i' e

insert_recurrence-seqs :
    (now : ℕ) (i : InboundDb) (msg : MessageIn) (id : String) (next_run : ℕ) {i' : InboundDb}
    → insert_recurrence now i msg id next_run ≡ some i'
    → in_seqs i' ≡ in_seqs i ++ next_even_seq i.messages_in ∷ []
unfolding insert_recurrence recurrence_row
insert_recurrence-seqs now i msg id next_run {i'} e =
    insert_row-seqs (recurrence_row now (next_even_seq i.messages_in) msg id next_run) i i' e

update_rows-seqs :
    (update : TaskUpdate) (rows table : List MessageIn) {table' : List MessageIn}
    → update_rows update rows table ≡ some table'
    → map row_seq table' ≡ map row_seq table
unfolding update_rows
update_rows-seqs update [] table {table'} e = ap (map row_seq) (sym (some-injective table table' e))
update_rows-seqs update (row ∷ rows) table e =
    elim (Option-cases (merge_content update row.content)) [
      | inl e' ↦ absurd (false≢true (ap is_some (rw (e', update_rows) at e)))
      | inr (content, e') ↦
          update_rows-seqs update rows
            (update_where (has_id row.id) (apply_update update content) table)
            (rw (e', update_rows) at e)
          ∙ map-update_where row_seq (has_id row.id) (apply_update update content) table (λ m. refl)
    ]

update_task-seqs :
    (id : String) (update : TaskUpdate) (i i' : InboundDb) (n : ℕ)
    → update_task id update i ≡ some (i', n)
    → in_seqs i' ≡ in_seqs i
unfolding update_task
update_task-seqs id update i i' n e =
    by_table
      (update_rows update (select (λ (m : MessageIn). in_series id m && is_live m) i.messages_in)
        i.messages_in)
      (λ table e'.
        update_rows-seqs update
          (select (λ (m : MessageIn). in_series id m && is_live m) i.messages_in) i.messages_in e')
      e
  where
    count_rows : ℕ
    count_rows = length (select (λ (m : MessageIn). in_series id m && is_live m) i.messages_in)

    with_table : List MessageIn → InboundDb × ℕ
    with_table table = (record i { messages_in = table }, count_rows)

    by_table :
        (o : Option (List MessageIn))
        → ((table : List MessageIn) → o ≡ some table → map row_seq table ≡ in_seqs i)
        → Option.map with_table o ≡ some (i', n)
        → in_seqs i' ≡ in_seqs i
    by_table none same e' = absurd (false≢true (ap is_some e'))
    by_table (some table) same e' =
        ap (λ (r : InboundDb × ℕ). in_seqs r.0)
          (sym (some-injective (record i { messages_in = table }, count_rows) (i', n) e'))
        ∙ same table refl

-- A row with the next number of the host, at the end of the table.
host_row :
    {i i' : InboundDb} {o : OutboundDb}
    → in_seqs i' ≡ in_seqs i ++ next_even_seq i.messages_in ∷ []
    → IsNumbered i o
    → IsNumbered i' o
host_row {i} e h =
    let rows = i.messages_in in
    let seq = next_even_seq rows in
    record {
      even = rw e (
          All-append (λ n. n % 2 ≡ 0) (in_seqs i) (seq ∷ []) h.even
            ((next_even_seq-above rows).1, tt));
      odd = h.odd;
      in_ascending = rw e (
          Ascending-snoc (in_seqs i) seq
            (All-below_max row_seq rows seq (next_even_seq-above rows).0) h.in_ascending);
      out_ascending = h.out_ascending;
    }

-- A row of the container with the next number.
container_row :
    {i : InboundDb} {o o' : OutboundDb} (now : ℕ) (m : WriteMessageOut) (n : ℕ)
    → write_message_out now m i o ≡ some (o', n)
    → IsNumbered i o
    → IsNumbered i o'
container_row {i} {o = o} now m n e h =
    let above = next_odd_seq-above i o in
    let (n-eq, seqs) = write_message_out-seqs now m i o _ n e in
    record {
      even = h.even;
      odd = rw seqs (All-append (λ k. k % 2 ≡ 1) (out_seqs o) (n ∷ []) h.odd (rw n-eq above.2, tt));
      in_ascending = h.in_ascending;
      out_ascending = rw seqs (
          Ascending-snoc (out_seqs o) n
            (All-below_max (λ (r : MessageOut). r.seq) o.messages_out n (rw n-eq above.1))
            h.out_ascending);
    }

request_row :
    {i : InboundDb} {o o' : OutboundDb} (now : ℕ) (id : String) (content : Content) (n : ℕ)
    → write_request now id content i o ≡ some (o', n)
    → IsNumbered i o
    → IsNumbered i o'
unfolding write_request
request_row now id content n e h = container_row now _ n e h

Step-IsNumbered :
    {i : InboundDb} {o : OutboundDb} {i' : InboundDb} {o' : OutboundDb}
    → Step i o i' o'
    → IsNumbered i o
    → IsNumbered i' o'
Step-IsNumbered {i} (inserted m e) h = host_row (insert_message-seqs i m e) h
Step-IsNumbered {i} (failed id) h = same_in h (mark_message_failed-seqs i id)
Step-IsNumbered {i} (retried now id sec) h = same_in h (retry_with_backoff-seqs i now id sec)
Step-IsNumbered {i} {o = o} synced h =
    same_in h (unfold sync_processing_acks in sync_all-seqs i (select is_finished o.processing_ack))
Step-IsNumbered {i} (delivered id pid) h =
    same_in h (ap (map row_seq) (unfold mark_delivered in insert_delivered-messages_in i _))
Step-IsNumbered {i} (undeliverable id) h =
    same_in h (ap (map row_seq) (unfold mark_delivery_failed in insert_delivered-messages_in i _))
Step-IsNumbered orphans_deleted h = same_out h (unfold delete_orphan_processing_claims in refl)
Step-IsNumbered (written now m n e) h = container_row now m n e h
Step-IsNumbered {o = o} (acked now status ids) h =
    same_out h (replace_acks-messages_out now status o ids)
Step-IsNumbered stale_cleared h = same_out h (unfold clear_stale_processing_acks in refl)
Step-IsNumbered (requested now id content n e) h = request_row now id content n e h
Step-IsNumbered {i} (task_inserted now task e) h = host_row (insert_task-seqs now i task e) h
Step-IsNumbered {i} (recurred now msg id next_run e) h =
    host_row (insert_recurrence-seqs now i msg id next_run e) h
Step-IsNumbered {i} (recurrence_cleared id) h = same_in h (
    unfold clear_recurrence in
    map-update_where row_seq (has_id id) drop_recurrence i.messages_in (λ m. refl))
Step-IsNumbered {i} (cancelled id) h = same_in h (
    unfold cancel_task in
    map-update_where row_seq (λ (m : MessageIn). in_series id m && is_live m) end_series
      i.messages_in (λ m. refl))
Step-IsNumbered {i} (paused id) h = same_in h (
    unfold pause_task in
    map-update_where row_seq (λ (m : MessageIn). in_series id m && is_status pending m.status)
      (set_status paused_status) i.messages_in (λ m. refl))
Step-IsNumbered {i} (resumed id) h = same_in h (
    unfold resume_task in
    map-update_where row_seq (λ (m : MessageIn). in_series id m && is_status paused_status m.status)
      (set_status pending) i.messages_in (λ m. refl))
Step-IsNumbered {i} (updated id update n e) h = same_in h (update_task-seqs id update i _ n e)

-- Whatever the host and the container write, and in whatever order, to databases whose numbers
-- are in order, the numbers stay in order: messages_in has even numbers and messages_out odd
-- ones, ascending in each table.
pub Reach-IsNumbered :
    {i : InboundDb} {o : OutboundDb} {i' : InboundDb} {o' : OutboundDb}
    → IsNumbered i o
    → Reach i o i' o'
    → IsNumbered i' o'
Reach-IsNumbered h here = h
Reach-IsNumbered h (next r st) = Step-IsNumbered st (Reach-IsNumbered h r)

no_odd : (n : ℕ) (xs : List ℕ) → n % 2 ≡ 0 → All (λ k. k % 2 ≡ 1) xs → All (λ k. n ≢ k) xs
no_odd n [] e h = tt
no_odd n (x ∷ xs) e h = (λ p. omega arith, no_odd n xs e h.1)

apart :
    (xs ys : List ℕ)
    → All (λ n. n % 2 ≡ 0) xs
    → All (λ k. k % 2 ≡ 1) ys
    → All (λ n. All (λ k. n ≢ k) ys) xs
apart [] ys h k = tt
apart (x ∷ xs) ys h k = (no_odd x ys h.0 k, apart xs ys h.1 k)

-- After any interleaving of writes no number stands in both tables, so that a number names at
-- most one message.
pub Reach-seqs_apart :
    {i i' : InboundDb} {o o' : OutboundDb}
    → IsNumbered i o
    → Reach i o i' o'
    → All (λ n. All (λ k. n ≢ k) (out_seqs o')) (in_seqs i')
Reach-seqs_apart h r = let g = Reach-IsNumbered h r in apart _ _ g.even g.odd
