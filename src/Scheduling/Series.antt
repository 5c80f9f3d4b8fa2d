-- ===== src/Scheduling/Series.antt =====
-- Cancelling, pausing and resuming the series of a task.
use clawie.Prelude.{
  select-update_where_nil, select-update_where_same, update_where-update_where, String, ◌≡◌, Bool,
  true, false, ◌&&◌, [], arith, select, All, ap, ℕ,
}
use clawie.SessionDb.{MessageIn, pending, paused, is_status, InboundDb, set_status, is_due}
use clawie.Scheduling.{
  in_series, is_live, end_series, cancel_task, pause_task, resume_task, is_completed_recurring,
  get_completed_recurring,
}

abbrev pub is_live_in : String → MessageIn → Bool
is_live_in task_id m = in_series task_id m && is_live m

abbrev pub is_paused_in : String → MessageIn → Bool
is_paused_in task_id m = in_series task_id m && is_status paused m.status

abbrev pub is_pending_in : String → MessageIn → Bool
is_pending_in task_id m = in_series task_id m && is_status pending m.status

abbrev pub is_due_in : String → ℕ → MessageIn → Bool
is_due_in task_id now m =
    in_series task_id m && (is_status pending m.status && m.trigger && is_due now m.process_after)

module _ (id : String) where
  -- The tests of a task's id see what an UPDATE of another column leaves.
  ended : (m : MessageIn) → is_live_in id (end_series m) ≡ false
  ended m = ground arith

  -- After a cancel no row of the series is live, and the rows that the next sweep clones are those
  -- that it would have cloned without the cancel: a completed occurrence that still has its
  -- recurrence is not cancelled.
  pub cancel_task_lem :
      (db : InboundDb)
      → (select (is_live_in id) (cancel_task id db).messages_in ≡ [])
        × (get_completed_recurring (cancel_task id db) ≡ get_completed_recurring db)
  unfolding cancel_task get_completed_recurring
  cancel_task_lem db = (
    select-update_where_nil (is_live_in id) (is_live_in id) end_series db.messages_in
        (λ m h. ended m) (λ m h. h),
    select-update_where_same is_completed_recurring (is_live_in id) end_series db.messages_in
        (λ m h. ground arith) (λ m h. ground arith),
  )

  resumed :
      (m : MessageIn)
      → is_pending_in id m ≡ true
      → (is_paused_in id (set_status paused m) ≡ true)
        × (set_status pending (set_status paused m) ≡ m)
  unfolding in_series
  resumed m h = ground arith

  -- Pausing a series and resuming it restores every row, where no row of it was paused before.
  pub resume-pause :
      (db : InboundDb)
      → All (λ m. is_paused_in id m ≡ false) db.messages_in
      → resume_task id (pause_task id db) ≡ db
  unfolding resume_task pause_task
  resume-pause db h =
      ap (λ rows. record db { messages_in = rows })
        (update_where-update_where (is_paused_in id) (is_pending_in id) (set_status paused)
          (set_status pending) db.messages_in resumed h)

  -- A paused series has no due message.
  pub pause_task-none_due :
      (now : ℕ) (db : InboundDb) → select (is_due_in id now) (pause_task id db).messages_in ≡ []
  unfolding pause_task
  pause_task-none_due now db =
      select-update_where_nil (is_due_in id now) (is_pending_in id) (set_status paused)
        db.messages_in (λ m h. ground arith) (λ m h. ground arith)
