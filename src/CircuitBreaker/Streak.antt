-- ===== src/CircuitBreaker/Streak.antt =====
-- The file of the circuit breaker against the history of starts and clean shutdowns.
use Prim.Native.Nat.{min}
use clawie.Prelude.{
  ℕ, zero, suc, ◌+◌, ◌*◌, ◌≤◌, ◌<◌, Bool, true, false, Option, none, List, [], ◌∷◌, ◌≡◌, refl, ap,
  ◌∙◌, arith, ltb, if◌then◌else◌, or_else,
}
use clawie.CircuitBreaker.{
  CircuitBreakerState, reset_window_ms, get_delay, next_attempt, reset_circuit_breaker,
  enforce_startup_backoff,
}

-- what happens to the host, a crash being a start after a start
pub data HostEvent : Type 0 where
  start : ℕ → HostEvent
  clean_shutdown : HostEvent

-- the file after a history, the newest event first
unfoldable pub file_after : List HostEvent → Option CircuitBreakerState
unfolding enforce_startup_backoff reset_circuit_breaker
file_after [] = none
file_after (start now ∷ history) = (enforce_startup_backoff now (file_after history)).0
file_after (clean_shutdown ∷ history) = reset_circuit_breaker (file_after history)

-- whether the history ends in a start less than an hour before `now`
abbrev pub crashed_before : ℕ → List HostEvent → Bool
crashed_before now [] = false
crashed_before now (start at ∷ history) = ltb now (at + reset_window_ms)
crashed_before now (clean_shutdown ∷ history) = false

-- how many starts in a row ended in a crash, before the last event
abbrev pub crashes : List HostEvent → ℕ
crashes [] = 0
crashes (clean_shutdown ∷ history) = 0
crashes (start now ∷ history) = if crashed_before now history then suc (crashes history) else 0

next_attempt-crashes :
    (now : ℕ) (history : List HostEvent)
    → next_attempt now (file_after history) ≡ suc (crashes (start now ∷ history))
unfolding file_after next_attempt enforce_startup_backoff reset_circuit_breaker
next_attempt-crashes now [] = refl
next_attempt-crashes now (clean_shutdown ∷ history) = refl
next_attempt-crashes now (start at ∷ history) = ground (arith, next_attempt-crashes at history)

-- the delay after a number of crashes in a row
abbrev pub backoff : ℕ → ℕ
backoff zero = 0
backoff (suc zero) = 0
backoff (suc (suc zero)) = 10
backoff (suc (suc (suc zero))) = 30
backoff (suc (suc (suc (suc zero)))) = 120
backoff (suc (suc (suc (suc (suc zero))))) = 300
backoff (suc (suc (suc (suc (suc (suc n)))))) = 900

delay-backoff : (n : ℕ) → or_else (get_delay (suc n)) 0 ≡ backoff n
unfolding get_delay
delay-backoff zero = refl
delay-backoff (suc zero) = refl
delay-backoff (suc (suc zero)) = refl
delay-backoff (suc (suc (suc zero))) = refl
delay-backoff (suc (suc (suc (suc zero)))) = refl
delay-backoff (suc (suc (suc (suc (suc zero))))) = refl
delay-backoff (suc (suc (suc (suc (suc (suc n)))))) =
    let most : min (suc (suc (suc (suc (suc (suc n)))))) 6 ≡ 6 = omega arith in rw most refl

backoff-suc : (n : ℕ) → backoff n ≤ backoff (suc n)
backoff-suc zero = omega arith
backoff-suc (suc zero) = omega arith
backoff-suc (suc (suc zero)) = omega arith
backoff-suc (suc (suc (suc zero))) = omega arith
backoff-suc (suc (suc (suc (suc zero)))) = omega arith
backoff-suc (suc (suc (suc (suc (suc zero))))) = omega arith
backoff-suc (suc (suc (suc (suc (suc (suc n)))))) = omega arith

backoff-le : (n : ℕ) → backoff n ≤ 900
backoff-le zero = omega arith
backoff-le (suc n) = go n
  where
    go : (n : ℕ) → backoff (suc n) ≤ 900
    go zero = omega arith
    go (suc zero) = omega arith
    go (suc (suc zero)) = omega arith
    go (suc (suc (suc zero))) = omega arith
    go (suc (suc (suc (suc zero)))) = omega arith
    go (suc (suc (suc (suc (suc n))))) = omega arith

-- A start after any history is delayed by the schedule's entry for the number of crashes in a
-- row, where a crash is a start that is followed within an hour by another start, with no clean
-- shutdown between the two.
pub enforce_startup_backoff_lem :
    (now : ℕ) (history : List HostEvent)
    → (enforce_startup_backoff now (file_after history)).1 ≡ backoff (crashes (start now ∷ history))
unfolding enforce_startup_backoff
enforce_startup_backoff_lem now history =
    ap (λ attempt. or_else (get_delay attempt) 0) (next_attempt-crashes now history)
    ∙ delay-backoff (crashes (start now ∷ history))

-- A host that crashes less than 45 minutes after its delayed start is over, and starts again, has
-- one more crash in a row: the delay itself never uses up the hour. It then waits at least as long
-- as before, and never longer than 15 minutes.
pub enforce_startup_backoff-crash :
    (now later : ℕ) (history : List HostEvent)
    → later < now + 1000 * (enforce_startup_backoff now (file_after history)).1 + 45 * 60 * 1000
    → (crashes (start later ∷ start now ∷ history) ≡ suc (crashes (start now ∷ history)))
      × ((enforce_startup_backoff now (file_after history)).1
          ≤ (enforce_startup_backoff later (file_after (start now ∷ history))).1)
      × ((enforce_startup_backoff later (file_after (start now ∷ history))).1 ≤ 900)
enforce_startup_backoff-crash now later history soon =
    let n = crashes (start now ∷ history) in
    let old = enforce_startup_backoff_lem now history in
    let new = enforce_startup_backoff_lem later (start now ∷ history) in
    let within : ltb later (now + reset_window_ms) ≡ true =
      ground (arith, soon, old, backoff-le n) in
    let one_more : crashes (start later ∷ start now ∷ history) ≡ suc n = rw within refl in
    let longer = ap backoff one_more in
    (
      one_more,
      omega (arith, old, new, longer, backoff-suc n),
      omega (arith, new, longer, backoff-le (suc n)),
    )
