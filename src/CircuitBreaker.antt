-- ===== src/CircuitBreaker.antt =====
-- The startup backoff: circuit-breaker.ts. The state file is an Option: `none` where it is missing or
-- does not parse. Instants are in milliseconds.
pub mod Crashes
use aimclaw.Base.{
  ℕ, zero, suc, ◌+◌, ◌-◌, ◌*◌, min, Option, none, some, List, [], ◌∷◌, ltb, if◌then◌else◌, length,
}

pub record CircuitBreakerState : Type 0 where
  pub attempt : ℕ
  pub timestamp : ℕ

abbrev pub reset_window_ms : ℕ
reset_window_ms = 3600000

abbrev pub backoff_schedule_s : List ℕ
backoff_schedule_s = 0 ∷ 0 ∷ 10 ∷ 30 ∷ 120 ∷ 300 ∷ 900 ∷ []

-- an index into the schedule; 0 past the end, which `get_delay` never reaches
pub schedule_at : List ℕ → ℕ → ℕ
schedule_at [] i = 0
schedule_at (d ∷ ds) zero = d
schedule_at (d ∷ ds) (suc i) = schedule_at ds i

-- An attempt is at least 1.
unfoldable pub get_delay : ℕ → ℕ
unfolding schedule_at
get_delay attempt =
    schedule_at backoff_schedule_s (min (attempt - 1) (length backoff_schedule_s - 1))

-- A difference of instants that is negative, after a clock change, is less than the window too.
unfoldable pub next_attempt : ℕ → Option CircuitBreakerState → ℕ
next_attempt now none = 1
next_attempt now (some prev) =
    if ltb (now - prev.timestamp) reset_window_ms then prev.attempt + 1 else 1

-- What a start leaves: the state that it writes, and the seconds that it waits.
pub record Startup : Type 0 where
  pub file : Option CircuitBreakerState
  pub delay_sec : ℕ

unfoldable pub enforce_startup_backoff : ℕ → Option CircuitBreakerState → Startup
unfolding next_attempt get_delay
enforce_startup_backoff now prev =
    let attempt = next_attempt now prev in
    record {
      file = some (record { attempt = attempt; timestamp = now });
      delay_sec = get_delay attempt;
    }

-- a clean shutdown
unfoldable pub reset_circuit_breaker : Option CircuitBreakerState → Option CircuitBreakerState
reset_circuit_breaker file = none
