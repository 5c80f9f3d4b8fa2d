-- ===== src/ContainerRunner/Alone.antt =====
-- A session never has two containers, in whatever order the events of src/container-runner.ts
-- come.
use mathlib.Core.Path.{subst}
use clawie.Prelude.{
  ℕ, zero, suc, ◌+◌, ◌≤◌, String, Bool, true, false, not, ◌&&◌, Option, none, some, [], ◌≡◌, refl,
  sym, inl, inr, arith, Bool-cases, if-intro, str_eq, str_eq_iff, str_eq_refl, ◌⊎◌,
}
use clawie.Central.{Session}
use clawie.SessionManager.{Host}
use clawie.ContainerRunner.{
  Runner, WakePhase, preparing, settling, WakeResult, already_running, wake_container,
  join_or_start, spawn_process, give_up, settle_wake, container_closed, spawn_failed,
  kill_container, forget,
}
use clawie.ContainerRunner.Tracked.{
  processes, spawns, IsSafe, set_at-same, set_at-other, count-remove_same, count-remove_other,
  Change, unchanged, prepared, spawned, gave_up, resolved, ended, Change-IsTracked,
}
use clawie.ContainerRunner.Notice.{notify_abnormal_exit-silent}

-- What holds at one id, and at every other, holds at all.
at_each : (s id : String) (P : String → Type 0) → P s → (str_eq s id ≡ false → P id) → P id
at_each s id P same other = elim (Bool-cases (str_eq s id)) [
  | inl e ↦ subst P ((str_eq_iff s id).0 e) same
  | inr e ↦ other e
]

started-Change :
    (session : Session) (r : Runner) (phase : Option WakePhase) (id : String)
    → r.active_containers session.id ≡ false
    → r.wake_promises session.id ≡ phase
    → Change r (join_or_start session phase r).0 id
unfolding join_or_start
started-Change session r (some phase) id off e = unchanged refl refl refl refl
started-Change session r none id off free =
    at_each session.id id (Change r (join_or_start session none r).0)
      (prepared refl (ground (arith, str_eq_refl session.id)) refl
        (set_at-same r.wake_promises session.id (some preparing)) off free)
      (λ e.
        unchanged refl (ground (arith, e)) refl
          (set_at-other r.wake_promises session.id id (some preparing) e))

wake_container-Change :
    (session : Session) (r : Runner) (id : String) → Change r (wake_container session r).0 id
unfolding wake_container
wake_container-Change session r id =
    if-intro (λ (t : Runner × WakeResult). Change r t.0 id) (r.active_containers session.id)
      (λ _. unchanged refl refl refl refl)
      (λ off. started-Change session r (r.wake_promises session.id) id off refl)

spawn_process-Change :
    (now : ℕ) (session : Session) (r : Runner) (id : String)
    → 1 ≤ spawns session.id r
    → Change r (spawn_process now session r) id
unfolding spawn_process
spawn_process-Change now session r id under =
    at_each session.id id (Change r (spawn_process now session r))
      (spawned (ground (arith, str_eq_refl session.id)) (count-remove_same session.id r.spawning)
        under (set_at-same r.active_containers session.id true))
      (λ e.
        unchanged (ground (arith, e)) (count-remove_other session.id id r.spawning e)
          (set_at-other r.active_containers session.id id true e)
          (set_at-other r.wake_promises session.id id (some settling) e))

give_up-Change : (session : Session) (r : Runner) (id : String) → Change r (give_up session r) id
unfolding give_up
give_up-Change session r id =
    at_each session.id id (Change r (give_up session r))
      (gave_up refl (count-remove_same session.id r.spawning) refl)
      (λ e.
        unchanged refl (count-remove_other session.id id r.spawning e) refl
          (set_at-other r.wake_promises session.id id (some settling) e))

settle_wake-Change :
    (session : Session) (r : Runner) (id : String)
    → r.wake_promises session.id ≡ some settling
    → Change r (settle_wake session r) id
unfolding settle_wake
settle_wake-Change session r id settles =
    at_each session.id id (Change r (settle_wake session r)) (resolved refl refl refl settles)
      (λ e. unchanged refl refl refl (set_at-other r.wake_promises session.id id none e))

forget-Change : (session : Session) (r : Runner) (id : String) → Change r (forget session r) id
forget-Change session r id =
    at_each session.id id (Change r (forget session r))
      (ended (count-remove_same session.id r.live) refl
        (set_at-same r.active_containers session.id false) refl)
      (λ e.
        unchanged (count-remove_other session.id id r.live e) refl
          (set_at-other r.active_containers session.id id false e) refl)

container_closed-Change :
    (now : ℕ) (notice_id : String) (clean : Bool) (session : Session) (r : Runner) (id : String)
    → Change r (container_closed now notice_id clean session r) id
unfolding container_closed
container_closed-Change now notice_id clean session r id =
    if-intro (λ (t : Runner). Change r t id) (not (r.intentional_kills session.id) && not clean)
      (λ _.
        subst (λ (t : Runner). Change r t id)
          (sym (notify_abnormal_exit-silent now notice_id session (forget session r)))
          (forget-Change session r id))
      (λ _. forget-Change session r id)

kill_container-Change :
    (killed : String) (r : Runner) (id : String) → Change r (kill_container killed r) id
unfolding kill_container
kill_container-Change killed r id =
    if-intro (λ (t : Runner). Change r t id) (r.active_containers killed)
      (λ _. unchanged refl refl refl refl) (λ _. unchanged refl refl refl refl)

-- The events of the module, in any order: each call of `spawnContainer` comes to its spawn or gives up,
-- a promise settles after that, and a process that was spawned reports its end once, by `close` or by
-- `error`.
pub data Step (r : Runner) : Runner → Type 0 where
  wake : (session : Session) → Step r (wake_container session r).0
  spawn :
      (now : ℕ) (session : Session) → 1 ≤ spawns session.id r → Step r (spawn_process now session r)
  abort : (session : Session) → 1 ≤ spawns session.id r → Step r (give_up session r)
  resolve_wake :
      (session : Session)
      → r.wake_promises session.id ≡ some settling
      → Step r (settle_wake session r)
  close :
      (now : ℕ) (notice_id : String) (clean : Bool) (session : Session)
      → 1 ≤ processes session.id r
      → Step r (container_closed now notice_id clean session r)
  fail : (session : Session) → 1 ≤ processes session.id r → Step r (spawn_failed session r)
  kill : (id : String) → Step r (kill_container id r)

Step-Change : {r t : Runner} → Step r t → (id : String) → Change r t id
unfolding spawn_failed
Step-Change {r} (wake session) id = wake_container-Change session r id
Step-Change {r} (spawn now session w) id = spawn_process-Change now session r id w
Step-Change {r} (abort session w) id = give_up-Change session r id
Step-Change {r} (resolve_wake session w) id = settle_wake-Change session r id w
Step-Change {r} (close now notice_id clean session live) id =
    container_closed-Change now notice_id clean session r id
Step-Change {r} (fail session live) id = forget-Change session r id
Step-Change {r} (kill killed) id = kill_container-Change killed r id

abbrev pub at_start : Host → Runner
at_start host = record {
  host = host;
  live = [];
  spawning = [];
  active_containers = λ id. false;
  wake_promises = λ id. none;
  intentional_kills = λ id. false;
  last_failure_notice = λ id. none;
}

pub data Reach (host : Host) : Runner → Type 0 where
  start : Reach host (at_start host)
  later : {r t : Runner} → Reach host r → Step r t → Reach host t

Reach-IsSafe : {host : Host} {r : Runner} → Reach host r → IsSafe r
Reach-IsSafe start id = record {
  one = omega arith;
  covered = λ _. refl;
  single = omega arith;
  promised = λ h. absurd (omega (arith, h));
  awaited = λ h. refl;
}
Reach-IsSafe (later reached step) id =
    Change-IsTracked (Step-Change step id) (Reach-IsSafe reached id)

-- Whatever the order of wakes, spawns, kills, exits and failures since the host's start, where each
-- process reports its end once, a session has at most one container alive and one spawn under way,
-- and never both; where one is alive a wake starts no spawn.
pub Reach-one :
    (host : Host) (r : Runner) (session : Session)
    → Reach host r
    → (processes session.id r + spawns session.id r ≤ 1)
      × ((processes session.id r ≡ 0) ⊎ (wake_container session r ≡ (r, already_running)))
unfolding wake_container
Reach-one host r session reached =
    let safe = Reach-IsSafe reached session.id in
    (
      together (spawns session.id r) refl,
      elim (Bool-cases (r.active_containers session.id)) [
        | inl on ↦ inr (rw on refl)
        | inr off ↦ inl (safe.covered off)
      ],
    )
  where
    together : (n : ℕ) → spawns session.id r ≡ n → processes session.id r + spawns session.id r ≤ 1
    together zero e = omega (arith, e, (Reach-IsSafe reached session.id).one)
    together (suc n) e =
        let safe = Reach-IsSafe reached session.id in
        omega (arith, safe.single, safe.covered (safe.awaited (omega (arith, e))))
