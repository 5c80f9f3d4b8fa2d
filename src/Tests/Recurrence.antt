-- ===== src/Tests/Recurrence.antt =====
-- The theorem of Scheduling.Recurrence at a completed daily task, one without a readable schedule
-- and a pending one of another series.
use Prim.Native.String.{◌++◌ as str_append}
use mathlib.Core.Option
use clawie.Prelude.{
  ℕ, String, ◌≡◌, refl, true, false, none, some, [], ◌∷◌, str_eq, count, if◌then◌else◌, length,
}
use clawie.SessionDb.{
  MessageIn, MessageStatus, InboundDb, instant, pending, completed, insert_row, next_even_seq,
}
use clawie.Scheduling.{
  Tick, handle_recurrence, recur_all, recur_one, insert_recurrence, clear_recurrence,
  recurrence_row, get_completed_recurring,
}
use clawie.Scheduling.Recurrence.{handle_recurrence-count, carries}
use clawie.Tests.{says}

abbrev task : String → ℕ → MessageStatus → String → MessageIn
task id seq status cron = record {
  id = id;
  seq = seq;
  kind = "task";
  timestamp = 1;
  status = status;
  process_after = some (instant 5);
  recurrence = some cron;
  series_id = some "daily";
  tries = 0;
  trigger = true;
  platform_id = none;
  channel_type = none;
  thread_id = none;
  content = says "water the plants";
  source_session_id = none;
  on_wake = false;
}

abbrev db : InboundDb
db = record {
  messages_in =
      task "t1" 2 completed "0 9 * * *"
      ∷ task "t2" 4 completed "every day"
      ∷ task "t3" 6 pending "0 9 * * *"
      ∷ [];
  delivered = [];
}

abbrev tick : Tick
tick = record {
  now = 50;
  next_run = λ cron. if str_eq cron "0 9 * * *" then some 90 else none;
  new_id = λ prefix k. str_append prefix "-50-x";
}

-- The first task is cloned and the second waits.
cloned : length (handle_recurrence tick db).messages_in ≡ 4
unfolding handle_recurrence get_completed_recurring recur_all recur_one insert_recurrence insert_row
    clear_recurrence recurrence_row next_even_seq mathlib.Core.Option.bind
cloned = refl

handle_recurrence-count_example :
    count (carries "daily") (handle_recurrence tick db).messages_in ≡ 3
handle_recurrence-count_example =
    handle_recurrence-count "daily" tick db ((refl, (refl, tt)), ((refl, tt), (tt, tt)))
