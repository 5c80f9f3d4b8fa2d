-- ===== src/Scheduling.antt =====
-- src/modules/scheduling/db.ts and recurrence.ts: scheduled tasks are rows of messages_in of kind
-- 'task', and a completed row with a recurrence is cloned for its next run.
pub mod Series
pub mod Recurrence
use mathlib.Core.Option
use clawie.Prelude.{
  ℕ, zero, suc, ◌+◌, String, Bool, true, false, not, ◌&&◌, ◌||◌, Option, none, some, List, [], ◌∷◌,
  ◌++◌, if◌then◌else◌, str_eq, sql_eq, is_some, length, select, update_where, or_else,
}
use clawie.Json.{
  Content, json, plain, Value, object, array, text, null, Fields, end, field, set_field,
}
use clawie.SessionDb.{
  Stamp, instant, MessageIn, MessageStatus, pending, completed, paused, is_status, InboundDb,
  insert_row, next_even_seq, has_id, set_status,
}

pub record NewTask : Type 0 where
  pub id : String
  pub process_after : Stamp
  pub recurrence : Option String
  pub platform_id : Option String
  pub channel_type : Option String
  pub thread_id : Option String
  pub content : Content

-- the values of the INSERT; the columns that it does not name have the schema's defaults
unfoldable pub task_row : ℕ → ℕ → NewTask → MessageIn
task_row now seq task = record {
  id = task.id;
  seq = seq;
  kind = "task";
  timestamp = now;
  status = pending;
  process_after = some task.process_after;
  recurrence = task.recurrence;
  series_id = some task.id;
  tries = 0;
  trigger = true;
  platform_id = task.platform_id;
  channel_type = task.channel_type;
  thread_id = task.thread_id;
  content = task.content;
  source_session_id = none;
  on_wake = false;
}

unfoldable pub insert_task : ℕ → InboundDb → NewTask → Option InboundDb
unfolding task_row insert_row
insert_task now db task = insert_row (task_row now (next_even_seq db.messages_in) task) db

-- (id = ? OR series_id = ?) AND kind = 'task'
unfoldable pub in_series : String → MessageIn → Bool
in_series task_id m = (str_eq m.id task_id || sql_eq m.series_id task_id) && str_eq m.kind "task"

-- status IN ('pending', 'paused')
abbrev pub is_live : MessageIn → Bool
is_live m = is_status pending m.status || is_status paused m.status

abbrev pub end_series : MessageIn → MessageIn
end_series m = record m { status = completed; recurrence = none }

unfoldable pub cancel_task : String → InboundDb → InboundDb
cancel_task task_id db = record db {
  messages_in =
      update_where (λ (m : MessageIn). in_series task_id m && is_live m) end_series db.messages_in;
}

unfoldable pub pause_task : String → InboundDb → InboundDb
pause_task task_id db = record db {
  messages_in =
      update_where (λ (m : MessageIn). in_series task_id m && is_status pending m.status)
        (set_status paused) db.messages_in;
}

unfoldable pub resume_task : String → InboundDb → InboundDb
resume_task task_id db = record db {
  messages_in =
      update_where (λ (m : MessageIn). in_series task_id m && is_status paused m.status)
        (set_status pending) db.messages_in;
}

-- A field that is `none` is left alone; `script` and `recurrence` may also be set to null.
pub record TaskUpdate : Type 0 where
  pub prompt : Option String
  pub script : Option (Option String)
  pub recurrence : Option (Option String)
  pub process_after : Option Stamp

-- the assignment throws on null and on a primitive; on an array it leaves what is printed
unfoldable pub assign : String → Value → Value → Option Value
assign key value (object fields) = some (object (set_field key value fields))
assign key value (array xs) = some (array xs)
assign key value _ = none

abbrev pub nullable : Option String → Value
nullable none = null
nullable (some s) = text s

unfoldable pub assign_if : String → Option Value → Value → Option Value
unfolding assign
assign_if key none parsed = some parsed
assign_if key (some value) parsed = assign key value parsed

-- `none` is an exception of `JSON.parse` or of an assignment
unfoldable pub merge_content : TaskUpdate → Content → Option Content
unfolding assign_if
merge_content update content =
    if is_some update.prompt || is_some update.script
    then elim content [
      | plain s ↦ none
      | json parsed ↦ Option.map json (
          Option.bind (assign_if "prompt" (Option.map text update.prompt) parsed)
            (assign_if "script" (Option.map nullable update.script)))
    ]
    else some content

abbrev pub apply_update : TaskUpdate → Content → MessageIn → MessageIn
apply_update update content m = record m {
  content = content;
  process_after = elim update.process_after [ none ↦ m.process_after | some at ↦ some at ];
  recurrence = or_else update.recurrence m.recurrence;
}

-- the loop of the transaction, over the rows read before it
unfoldable pub update_rows : TaskUpdate → List MessageIn → List MessageIn → Option (List MessageIn)
unfolding merge_content
update_rows update [] table = some table
update_rows update (row ∷ rows) table = elim (merge_content update row.content) [
  | none ↦ none
  | some content ↦
      update_rows update rows (update_where (has_id row.id) (apply_update update content) table)
]

-- The new table and the number of rows touched; `none` is an exception, which rolls back.
unfoldable pub update_task : String → TaskUpdate → InboundDb → Option (InboundDb × ℕ)
unfolding update_rows
update_task task_id update db =
    let rows = select (λ (m : MessageIn). in_series task_id m && is_live m) db.messages_in in
    Option.map (λ (table : List MessageIn). (record db { messages_in = table }, length rows))
      (update_rows update rows db.messages_in)

abbrev pub is_completed_recurring : MessageIn → Bool
is_completed_recurring m = is_status completed m.status && is_some m.recurrence

unfoldable pub get_completed_recurring : InboundDb → List MessageIn
get_completed_recurring db = select is_completed_recurring db.messages_in

unfoldable pub recurrence_row : ℕ → ℕ → MessageIn → String → ℕ → MessageIn
recurrence_row now seq msg new_id next_run = record {
  id = new_id;
  seq = seq;
  kind = msg.kind;
  timestamp = now;
  status = pending;
  process_after = some (instant next_run);
  recurrence = msg.recurrence;
  series_id = msg.series_id;
  tries = 0;
  trigger = true;
  platform_id = msg.platform_id;
  channel_type = msg.channel_type;
  thread_id = msg.thread_id;
  content = msg.content;
  source_session_id = none;
  on_wake = false;
}

unfoldable pub insert_recurrence : ℕ → InboundDb → MessageIn → String → ℕ → Option InboundDb
unfolding recurrence_row insert_row
insert_recurrence now db msg new_id next_run =
    insert_row (recurrence_row now (next_even_seq db.messages_in) msg new_id next_run) db

abbrev pub drop_recurrence : MessageIn → MessageIn
drop_recurrence m = record m { recurrence = none }

unfoldable pub clear_recurrence : InboundDb → String → InboundDb
clear_recurrence db message_id = record db {
  messages_in = update_where (has_id message_id) drop_recurrence db.messages_in;
}

-- What a tick takes from outside: the clock, the package cron-parser, whose `next_run` is `none`
-- where it throws, and the k-th fresh id of the tick with its prefix.
pub record Tick : Type 0 where
  pub now : ℕ
  pub next_run : String → Option ℕ
  pub new_id : String → ℕ → String

-- one round of the loop: an error is caught, and leaves the row for the next tick
unfoldable pub recur_one : Tick → ℕ → MessageIn → InboundDb → InboundDb
unfolding insert_recurrence clear_recurrence
recur_one tick k msg db = elim (Option.bind msg.recurrence tick.next_run) [
  | none ↦ db
  | some next_run ↦
      let prefix = if str_eq msg.kind "task" then "task" else "msg" in
      elim (insert_recurrence tick.now db msg (tick.new_id prefix k) next_run) [
        | none ↦ db
        | some db' ↦ clear_recurrence db' msg.id
      ]
]

unfoldable pub recur_all : Tick → ℕ → List MessageIn → InboundDb → InboundDb
unfolding recur_one
recur_all tick k [] db = db
recur_all tick k (msg ∷ rest) db = recur_all tick (suc k) rest (recur_one tick k msg db)

unfoldable pub handle_recurrence : Tick → InboundDb → InboundDb
unfolding recur_all get_completed_recurring
handle_recurrence tick db = recur_all tick 0 (get_completed_recurring db) db
