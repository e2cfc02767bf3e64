-- ===== src/Tests/Tasks.antt =====
-- Scheduled tasks.
use aimclaw.Base.{
  ℕ, ◌+◌, ◌*◌, ◌/◌, ◌≡◌, refl, String, Option, none, some, List, [], ◌∷◌, ◌++◌, length,
}
use aimclaw.SessionDb.{Status, pending, at, MessageIn, insert_row, next_even_seq}
use aimclaw.Scheduling.{
  get_completed_recurring, trailing_failed_runs, insert_recurrence, clear_recurrence,
}
use aimclaw.Tests.Ids.{ids, ids-injective, t1-ids}
use aimclaw.Scheduling.Recurrence.{handle_recurrence, next_run}
use aimclaw.Scheduling.Recurrence.Ticks.{handle_recurrence_arms_once}
use aimclaw.Tests.Samples.{row, task}

abbrev series : List MessageIn
series =
    task "t1" 2 Status.failed none
    ∷ task "t2" 4 Status.failed none
    ∷ task "t3" 6 pending (some "* * * * *")
    ∷ row "a" 8 pending 0
    ∷ []

abbrev newest : MessageIn
newest = task "t4" 10 Status.failed none

streak_test : trailing_failed_runs (series ++ newest ∷ []) "s" ≡ 3
unfolding trailing_failed_runs
streak_test = refl

abbrev finished : List MessageIn
finished = task "t1" 2 Status.completed (some "* * * * *") ∷ []

-- A parser for which every expression means the next full minute.
abbrev minutely : String → ℕ → Option ℕ
minutely expression now = some ((now / 60000 + 1) * 60000)

handle_recurrence_arms_once_example :
    (get_completed_recurring (handle_recurrence minutely ids 90000 finished).rows ≡ [])
    × (length (handle_recurrence minutely ids 90000 finished).rows ≡ 2)
unfolding get_completed_recurring
handle_recurrence_arms_once_example =
    handle_recurrence_arms_once minutely ids 90000 finished ids-injective (λ j le. rw (t1-ids j))
      ((λ e. cc), tt)

-- The next row waits for the next full minute.
arms_test :
    (handle_recurrence minutely ids 90000 finished).rows
    ≡ task "t1" 2 Status.completed none
      ∷ record (task "x" 4 pending (some "* * * * *")) {
        timestamp = 90000;
        process_after = some (at 120000);
      }
      ∷ []
unfolding handle_recurrence insert_recurrence clear_recurrence next_run trailing_failed_runs
    insert_row next_even_seq ids
arms_test = refl
