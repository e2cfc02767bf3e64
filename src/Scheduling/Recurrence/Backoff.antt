-- ===== src/Scheduling/Recurrence/Backoff.antt =====
-- How long a failing series waits.
use aimclaw.Base.{ℕ, zero, suc, ◌^◌, ◌≤◌, ◌<◌, arith}
use aimclaw.Scheduling.Recurrence.{script_backoff_minutes}

pow_pos : (n : ℕ) → 1 ≤ 2 ^ n
pow_pos zero = omega arith
pow_pos (suc n) = grind (arith, pow_pos n)

pow_mono : (m n : ℕ) → m ≤ n → 2 ^ m ≤ 2 ^ n
pow_mono zero n h = pow_pos n
pow_mono (suc m) zero h = omega arith
pow_mono (suc m) (suc n) h = grind (arith, pow_mono m n)

-- The backoff never falls as the streak grows, is two minutes or more after a failure, and one hour
-- at most.
pub script_backoff_minutes_lem :
    (m n : ℕ)
    → 0 < m
    → m ≤ n
    → (2 ≤ script_backoff_minutes m)
      × (script_backoff_minutes m ≤ script_backoff_minutes n)
      × (script_backoff_minutes n ≤ 60)
unfolding script_backoff_minutes
script_backoff_minutes_lem (suc m) (suc n) p h =
    (omega (arith, pow_pos m), omega (arith, pow_mono m n (omega arith)), omega arith)
script_backoff_minutes_lem _ _ p h = absurd (omega arith)
