-- ===== src/Tests/Sweeps.antt =====
-- The host sweep.
use aimclaw.Base.{ℕ, ◌≡◌, ◌≢◌, ◌↔◌, refl, true, false, Option, none, some, List, [], ◌∷◌}
use aimclaw.SessionDb.{
  Status, pending, at, MessageIn, AckStatus, ProcessingAck, sync_processing_acks,
  get_processing_claims, count_due_messages,
}
use aimclaw.Scheduling.Recurrence.{handle_recurrence}
use aimclaw.HostSweep.{
  ContainerState, ok, kill_ceiling, kill_claim, Outbound, Swept, World, wants_wake, sync_with,
  decide_stuck_action, sweep_session,
}
use aimclaw.HostSweep.Decision.{
  IsQuiet, IsPastCeiling, ceiling_of, tolerance_of, decide_stuck_action-ok_iff,
}
use aimclaw.HostSweep.Giveup.{Crash}
use aimclaw.HostSweep.Sessions.{decision_of, sweep_session-kill}
use aimclaw.Tests.Samples.{row, task, ack}
use aimclaw.Tests.Ids.{ids}

abbrev long_bash : Option ContainerState
long_bash = some (record { current_tool = some "Bash"; tool_declared_timeout_ms = some 7200000 })

-- The same claim is stuck without a tool, and tolerated while a long Bash runs.
stuck_test :
    (decide_stuck_action 200000 0 none (ack "a" AckStatus.processing (at 100000) ∷ [])
      ≡ kill_claim "a" 100000 60000)
    × (decide_stuck_action 200000 0 long_bash (ack "a" AckStatus.processing (at 100000) ∷ []) ≡ ok)
    × (decide_stuck_action 2000000 1 none [] ≡ kill_ceiling 1999999 1800000)
unfolding decide_stuck_action
stuck_test = (refl, refl, refl)

abbrev claims : List ProcessingAck
claims = ack "a" AckStatus.processing (at 100000) ∷ []

decide_stuck_action-ok_iff_example :
    (decide_stuck_action 200000 0 none claims ≡ ok)
    ↔ ((¬ IsPastCeiling 200000 0 (ceiling_of none)) × IsQuiet 200000 0 (tolerance_of none) claims)
decide_stuck_action-ok_iff_example = decide_stuck_action-ok_iff 200000 0 none claims

abbrev two_rows : List MessageIn
two_rows = row "a" 2 pending 0 ∷ row "b" 4 pending 5 ∷ []

abbrev crash : ℕ → Crash
crash now = record { now = now; claims = claims }

-- Two crashes, the second after the five seconds of the first backoff.

abbrev world : World
world = record {
  now = 200000;
  heartbeat = 0;
  has_inbound = true;
  running = true;
  woken = false;
  running_at_end = false;
  opens_for_writing = true;
  cron = λ expression now. none;
  new_id = ids;
}

abbrev silent : Outbound
silent = record { acks = claims; state = none }

abbrev session : Swept
session = record {
  rows = row "a" 2 pending 0 ∷ [];
  outbound = some silent;
  wake = false;
  kill = false;
  closed = false;
}

-- A container that claimed a message and went silent is killed, and the message is put off.
kill_test : (sweep_session world none session).kill ≡ true
unfolding sweep_session count_due_messages sync_processing_acks get_processing_claims
kill_test = refl

sweep_session-kill_example :
    (out : Outbound) × (some silent ≡ some out)
    × (true ≡ true)
    × (decision_of world out ≢ ok)
    × ((sweep_session world none session).wake ≡ false)
sweep_session-kill_example = sweep_session-kill world none session refl kill_test

silent_is_lost : decision_of world silent ≢ ok
unfolding decide_stuck_action get_processing_claims
silent_is_lost e = cc

wakes_nothing : wants_wake world (sync_with (some silent) session.rows) ≡ false
unfolding count_due_messages sync_processing_acks
wakes_nothing = refl

abbrev spent : Swept
spent = record session { rows = task "t1" 2 Status.completed none ∷ []; outbound = none }

abbrev idle : World
idle = record world { running = false }

close_test : (sweep_session idle (some "system:tasks:s") spent).closed ≡ true
unfolding sweep_session count_due_messages handle_recurrence
close_test = refl
