-- ===== src/Sweep.antt =====
-- src/host-sweep.ts: the periodic maintenance of a session: acknowledgements, waking and killing
-- the container, and the retries of messages that it left behind.
pub mod Stuck
pub mod Retries
use clawie.Prelude.{
  ℕ, zero, suc, ◌+◌, ◌-◌, ◌*◌, ◌/◌, ◌^◌, max, String, Bool, true, false, not, ◌&&◌, ◌||◌, Option,
  none, some, List, [], ◌∷◌, if◌then◌else◌, ltb, leb, ◌==◌, str_eq, sql_eq, or_else,
}
use clawie.SessionDb.{
  Stamp, instant, unreadable, MessageIn, pending, InboundDb, OutboundDb, ProcessingAck,
  ContainerState, get_processing_claims, get_message_for_retry, mark_message_failed,
  retry_with_backoff, delete_orphan_processing_claims, sync_processing_acks, count_due_messages,
}
use clawie.Scheduling.{Tick, handle_recurrence}

-- `parseSqliteUtc`: NaN is `none`
abbrev pub parse_stamp : Stamp → Option ℕ
parse_stamp (instant ms) = some ms
parse_stamp unreadable = none

abbrev pub absolute_ceiling_ms : ℕ
absolute_ceiling_ms = 30 * 60 * 1000

abbrev pub claim_stuck_ms : ℕ
claim_stuck_ms = 60 * 1000

abbrev pub max_tries : ℕ
max_tries = 5

abbrev pub backoff_base_ms : ℕ
backoff_base_ms = 5000

pub data StuckDecision : Type 0 where
  leave : StuckDecision
  kill_ceiling : ℕ → ℕ → StuckDecision
  kill_claim : String → ℕ → ℕ → StuckDecision

unfoldable pub bash_timeout_ms : Option ContainerState → Option ℕ
bash_timeout_ms none = none
bash_timeout_ms (some state) =
    if sql_eq state.current_tool "Bash" then state.tool_declared_timeout_ms else none

-- `leave` is the source's `ok`. Ages are compared only with `>`, for which a difference below 0
-- is as good as 0.
unfoldable pub first_stuck_claim : ℕ → ℕ → ℕ → List ProcessingAck → StuckDecision
first_stuck_claim now heartbeat tolerance [] = leave
first_stuck_claim now heartbeat tolerance (claim ∷ claims) =
    let rest = first_stuck_claim now heartbeat tolerance claims in
    elim (parse_stamp claim.status_changed) [
      | none ↦ rest
      | some claimed_at ↦
          let claim_age = now - claimed_at in
          if leb claim_age tolerance
          then rest
          else if ltb claimed_at heartbeat
          then rest
          else kill_claim claim.message_id claim_age tolerance
    ]

-- `heartbeat` is 0 when the heartbeat file is absent.
unfoldable pub decide_stuck_action :
    ℕ → ℕ → Option ContainerState → List ProcessingAck → StuckDecision
unfolding first_stuck_claim
decide_stuck_action now heartbeat state claims =
    let declared = or_else (bash_timeout_ms state) 0 in
    let ceiling = max absolute_ceiling_ms declared in
    let by_claim = first_stuck_claim now heartbeat (max claim_stuck_ms declared) claims in
    if not (heartbeat == 0) && ltb ceiling (now - heartbeat)
    then kill_ceiling (now - heartbeat) ceiling
    else by_claim

-- 5000 * 2^tries milliseconds, in whole seconds
unfoldable pub backoff_sec : ℕ → ℕ
backoff_sec tries = backoff_base_ms * 2 ^ tries / 1000

-- msg.processAfter && parseSqliteUtc(msg.processAfter) > now, where a comparison with NaN fails
unfoldable pub is_rescheduled : ℕ → Option Stamp → Bool
is_rescheduled now none = false
is_rescheduled now (some at) = elim (parse_stamp at) [ none ↦ false | some ms ↦ ltb now ms ]

-- one round of the loop of `resetStuckProcessingRows`
unfoldable pub reset_message : ℕ → InboundDb → String → InboundDb
reset_message now db message_id = elim (get_message_for_retry message_id pending db) [
  | none ↦ db
  | some msg ↦
      if is_rescheduled now msg.process_after
      then db
      else if leb max_tries msg.tries
      then mark_message_failed msg.id db
      else retry_with_backoff now msg.id (backoff_sec msg.tries) db
]

unfoldable pub reset_messages : ℕ → List ProcessingAck → InboundDb → InboundDb
reset_messages now [] db = db
reset_messages now (claim ∷ claims) db =
    reset_messages now claims (reset_message now db claim.message_id)

-- `writable` is false when the outbound database cannot be opened for the delete; the error is
-- logged.
unfoldable pub reset_stuck_processing_rows :
    ℕ → Bool → InboundDb → OutboundDb → InboundDb × OutboundDb
reset_stuck_processing_rows now writable in_db out_db = (
  reset_messages now (get_processing_claims out_db) in_db,
  if writable then (delete_orphan_processing_claims out_db).0 else out_db,
)

pub data KillReason : Type 0 where
  past_ceiling claim_stuck : KillReason

pub data SweepAction : Type 0 where
  woke : SweepAction
  killed : KillReason → SweepAction

pub record SweepState : Type 0 where
  pub inbound : InboundDb
  pub outbound : Option OutboundDb
  pub running : Bool
  pub actions : List SweepAction

-- What a sweep of one session takes from outside: the clock, the heartbeat file's age, whether a
-- wake leaves a container running, whether outbound.db can be written.
pub record Surroundings : Type 0 where
  pub tick : Tick
  pub heartbeat : ℕ
  pub wakes : Bool
  pub writable : Bool

abbrev with_reset : ℕ → Bool → OutboundDb → SweepState → SweepState
with_reset now writable out_db s =
    let (in_db', out_db') = reset_stuck_processing_rows now writable s.inbound out_db in
    record s { inbound = in_db'; outbound = some out_db' }

-- the kill ends the container
abbrev with_kill : KillReason → SweepState → SweepState
with_kill reason s = record s { running = false; actions = killed reason ∷ s.actions }

unfoldable pub enforce_running_container_sla : Surroundings → OutboundDb → SweepState → SweepState
enforce_running_container_sla w out_db s =
    elim (decide_stuck_action w.tick.now w.heartbeat out_db.container_state
      (get_processing_claims out_db)) [
        | leave ↦ s
        | kill_ceiling age ceiling ↦
            with_reset w.tick.now w.writable out_db (with_kill past_ceiling s)
        | kill_claim id age tolerance ↦
            with_reset w.tick.now w.writable out_db (with_kill claim_stuck s)
      ]

-- step 1
abbrev synced : SweepState → SweepState
synced s = elim s.outbound [
  | none ↦ s
  | some out_db ↦ record s { inbound = sync_processing_acks s.inbound out_db }
]

-- step 2
abbrev wake_if_due : Surroundings → SweepState → SweepState
wake_if_due w s =
    if ltb 0 (count_due_messages w.tick.now s.inbound) && not s.running
    then record s { running = w.wakes; actions = woke ∷ s.actions }
    else s

-- steps 3 and 4: `alive` is read before either
abbrev tend : Surroundings → SweepState → SweepState
tend w s = elim s.outbound [
  | none ↦ s
  | some out_db ↦
      if s.running
      then enforce_running_container_sla w out_db s
      else with_reset w.tick.now w.writable out_db s
]

-- `sweepSession` without step 6, the reflection on a stopped session
unfoldable pub sweep_session : Surroundings → SweepState → SweepState
unfolding enforce_running_container_sla
sweep_session w s =
    let tended = tend w (wake_if_due w (synced s)) in
    record tended { inbound = handle_recurrence w.tick tended.inbound }
