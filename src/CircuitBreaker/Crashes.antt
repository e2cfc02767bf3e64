-- ===== src/CircuitBreaker/Crashes.antt =====
-- A row of starts with no clean shutdown between them.
use aimclaw.Base.{
  ℕ, zero, suc, ◌+◌, ◌-◌, ◌≤◌, ◌<◌, min, ◌≡◌, refl, ap, ◌∙◌, Option, none, some, List, [], ◌∷◌, All,
  length, arith,
}
use aimclaw.CircuitBreaker.{
  CircuitBreakerState, reset_window_ms, backoff_schedule_s, schedule_at, get_delay, next_attempt,
  Startup, enforce_startup_backoff, reset_circuit_breaker,
}

-- the starts at these times, with what the last one leaves
abbrev pub starts : Option CircuitBreakerState → ℕ → List ℕ → Startup
starts file now [] = enforce_startup_backoff now file
starts file now (t ∷ ts) = starts (enforce_startup_backoff now file).file t ts

-- Each start comes within the window after the one before it.
abbrev pub IsCrashLoop : ℕ → List ℕ → Type 0
IsCrashLoop now [] = Unit
IsCrashLoop now (t ∷ ts) = (t < now + reset_window_ms) × IsCrashLoop t ts

next_attempt-near :
    (now t attempt : ℕ)
    → t < now + reset_window_ms
    → next_attempt t (some (record { attempt = attempt; timestamp = now })) ≡ attempt + 1
unfolding next_attempt
next_attempt-near now t attempt h = ground arith

starts_from :
    (k now : ℕ) (file : Option CircuitBreakerState) (ts : List ℕ)
    → next_attempt now file ≡ k
    → IsCrashLoop now ts
    → (starts file now ts).delay_sec ≡ get_delay (k + length ts)
unfolding enforce_startup_backoff
starts_from k now file [] e h = ap get_delay (omega arith)
starts_from k now file (t ∷ ts) e (near, h) =
    let file' = (enforce_startup_backoff now file).file in
    starts_from (k + 1) t file' ts
      (omega (arith, next_attempt-near now t (next_attempt now file) near)) h
    ∙ ap get_delay (omega arith)

next_attempt-clean : (now : ℕ) → next_attempt now none ≡ 1
unfolding next_attempt
next_attempt-clean now = refl

-- After a clean shutdown, or with no readable file, the start that follows n crashes, each start within the
-- hour after the one before it, waits as long as the schedule says for the attempt n + 1.
pub crash_loop_delay :
    (file : Option CircuitBreakerState) (now : ℕ) (ts : List ℕ)
    → IsCrashLoop now ts
    → (starts (reset_circuit_breaker file) now ts).delay_sec ≡ get_delay (1 + length ts)
unfolding reset_circuit_breaker
crash_loop_delay file now ts h = starts_from 1 now none ts (next_attempt-clean now) h

abbrev IsAscending : List ℕ → Type 0
IsAscending [] = Unit
IsAscending (d ∷ ds) = All (λ e. d ≤ e) ds × IsAscending ds

All-schedule_at :
    (d j : ℕ) (ds : List ℕ) → All (λ e. d ≤ e) ds → j < length ds → d ≤ schedule_at ds j
unfolding schedule_at
All-schedule_at d j [] h l = absurd (omega arith)
All-schedule_at d zero (e ∷ es) (p, h) l = p
All-schedule_at d (suc j) (e ∷ es) (p, h) l = All-schedule_at d j es h (omega arith)

schedule_at_mono :
    (i j : ℕ) (ds : List ℕ)
    → IsAscending ds
    → i ≤ j
    → j < length ds
    → schedule_at ds i ≤ schedule_at ds j
unfolding schedule_at
schedule_at_mono i j [] h le l = absurd (omega arith)
schedule_at_mono zero zero (d ∷ ds) h le l = omega arith
schedule_at_mono zero (suc j) (d ∷ ds) (p, h) le l = All-schedule_at d j ds p (omega arith)
schedule_at_mono (suc i) zero (d ∷ ds) h le l = absurd (omega arith)
schedule_at_mono (suc i) (suc j) (d ∷ ds) (p, h) le l =
    schedule_at_mono i j ds h (omega arith) (omega arith)

schedule-IsAscending : IsAscending backoff_schedule_s
schedule-IsAscending = omega arith

delay_cap : (n : ℕ) → 7 ≤ n → get_delay n ≡ 900
unfolding get_delay
delay_cap n h = let capped : min (n - 1) 6 ≡ 6 = omega arith in rw capped

-- The delay never falls as the crashes go on, the first two starts do not wait, and from the seventh
-- attempt on the delay is 15 minutes, which none exceeds.
pub get_delay_lem :
    (m n : ℕ)
    → m ≤ n
    → (get_delay m ≤ get_delay n)
      × (get_delay n ≤ 900)
      × (get_delay (n + 7) ≡ 900)
      × (get_delay 2 ≡ 0)
unfolding get_delay
get_delay_lem m n h = (
  schedule_at_mono (min (m - 1) 6) (min (n - 1) 6) backoff_schedule_s schedule-IsAscending
      (omega arith) (omega arith),
  schedule_at_mono (min (n - 1) 6) 6 backoff_schedule_s schedule-IsAscending (omega arith)
      (omega arith),
  delay_cap (n + 7) (omega arith),
  refl,
)
