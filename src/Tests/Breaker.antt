-- ===== src/Tests/Breaker.antt =====
-- The theorems of CircuitBreaker.Streak at a host that crashes twice after a clean shutdown.
use clawie.Prelude.{◌≡◌, List, [], ◌∷◌}
use clawie.CircuitBreaker.{enforce_startup_backoff}
use clawie.CircuitBreaker.Streak.{
  HostEvent, start, clean_shutdown, file_after, enforce_startup_backoff_lem,
}

abbrev crashed_once : List HostEvent
crashed_once = start 1000 ∷ clean_shutdown ∷ start 10 ∷ []

abbrev crashed_twice : List HostEvent
crashed_twice = start 2000 ∷ crashed_once

enforce_startup_backoff_lem_example :
    (enforce_startup_backoff 3000 (file_after crashed_twice)).1 ≡ 10
enforce_startup_backoff_lem_example = enforce_startup_backoff_lem 3000 crashed_twice
