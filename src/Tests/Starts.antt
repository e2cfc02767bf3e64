-- ===== src/Tests/Starts.antt =====
-- The startup backoff.
use aimclaw.Base.{ℕ, ◌≡◌, refl, List, [], ◌∷◌}
use aimclaw.CircuitBreaker.{get_delay}

abbrev crashes : List ℕ
crashes = 1000 ∷ 60000 ∷ 3000000 ∷ []

delay_test : get_delay 4 ≡ 30
unfolding get_delay
delay_test = refl
