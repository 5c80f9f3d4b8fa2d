-- ===== src/CircuitBreaker.antt =====
-- The backoff of src/circuit-breaker.ts: a file counts the starts since the last clean shutdown.
pub mod Streak
use Prim.Native.Nat.{min}
use clawie.Prelude.{
  ℕ, zero, suc, ◌+◌, ◌*◌, ◌-◌, Option, none, some, List, [], ◌∷◌, ltb, if◌then◌else◌, or_else,
  length,
}

-- 1 hour
abbrev pub reset_window_ms : ℕ
reset_window_ms = 60 * 60 * 1000

abbrev pub backoff_schedule_s : List ℕ
backoff_schedule_s = 0 ∷ 0 ∷ 10 ∷ 30 ∷ 120 ∷ 300 ∷ 900 ∷ []

-- The file; `none` is a file that is missing or that `JSON.parse` does not read.
pub record CircuitBreakerState : Type 0 where
  pub attempt : ℕ
  pub timestamp : ℕ

abbrev get_elem? : List ℕ → ℕ → Option ℕ
get_elem? [] n = none
get_elem? (x ∷ xs) zero = some x
get_elem? (x ∷ xs) (suc n) = get_elem? xs n

-- `none` is `undefined`, which the index -1 of an attempt 0 gives
unfoldable pub get_delay : ℕ → Option ℕ
get_delay zero = none
get_delay (suc n) = get_elem? backoff_schedule_s (min n (length backoff_schedule_s - 1))

unfoldable pub reset_circuit_breaker : Option CircuitBreakerState → Option CircuitBreakerState
reset_circuit_breaker file = none

-- elapsedMs < RESET_WINDOW_MS, also for a clock that went back
unfoldable pub next_attempt : ℕ → Option CircuitBreakerState → ℕ
next_attempt now none = 1
next_attempt now (some prev) =
    if ltb now (prev.timestamp + reset_window_ms) then prev.attempt + 1 else 1

-- The file that is written and the seconds that the start is delayed by; `undefined > 0` is false.
unfoldable pub enforce_startup_backoff :
    ℕ → Option CircuitBreakerState → Option CircuitBreakerState × ℕ
unfolding next_attempt get_delay
enforce_startup_backoff now file =
    let attempt = next_attempt now file in
    (some (record { attempt = attempt; timestamp = now }), or_else (get_delay attempt) 0)
