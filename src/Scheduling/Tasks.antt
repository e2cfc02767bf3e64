-- ===== src/Scheduling/Tasks.antt =====
-- Cancelling, pausing, resuming and deleting the tasks of a series.
use aimclaw.Base.{
  ℕ, ◌+◌, String, ◌≡◌, refl, Bool, not, ◌&&◌, List, [], ◌∷◌, filter, count, length, arith,
}
use aimclaw.SessionDb.{MessageIn, is_due}
use aimclaw.Scheduling.{
  in_series, is_paused, is_live_task, cancel_task, pause_task, resume_task, delete_task,
  get_completed_recurring,
}

abbrev pub is_other : String → MessageIn → Bool
is_other task m = not (in_series task m)

-- After a cancel no task of the series is pending or paused, the rows that recur are those that did
-- before, so none of the cancelled ones is armed again, and the rows of other series are as they were.
pub cancel_task_lem :
    (task : String) (rows : List MessageIn)
    → (count (is_live_task task) (cancel_task task rows).0 ≡ 0)
      × (get_completed_recurring (cancel_task task rows).0 ≡ get_completed_recurring rows)
      × (filter (is_other task) (cancel_task task rows).0 ≡ filter (is_other task) rows)
unfolding cancel_task get_completed_recurring
cancel_task_lem task [] = (refl, refl, refl)
cancel_task_lem task (m ∷ ms) =
    let (a, b, c) = cancel_task_lem task ms in (ground arith, ground arith, ground arith)

abbrev is_paused_in : String → MessageIn → Bool
is_paused_in task m = in_series task m && is_paused m.status

-- A paused series has no due row at any time. Where it had no paused row before, a resume brings
-- back the rows as they were, and reports as many.
pub resume-pause :
    (task : String) (now : ℕ) (rows : List MessageIn)
    → count (is_paused_in task) rows ≡ 0
    → (count (λ m. in_series task m && is_due now m) (pause_task task rows).0 ≡ 0)
      × (resume_task task (pause_task task rows).0 ≡ (rows, (pause_task task rows).1))
unfolding pause_task resume_task
resume-pause task now [] h = (refl, refl)
resume-pause task now (m ∷ ms) h =
    let (a, b) = resume-pause task now ms (ground arith) in (ground arith, ground arith)

-- A delete removes every task of the series and no other row, and reports how many it removed.
pub delete_task_lem :
    (task : String) (rows : List MessageIn)
    → (count (in_series task) (delete_task task rows).0 ≡ 0)
      × (filter (is_other task) (delete_task task rows).0 ≡ filter (is_other task) rows)
      × (length (delete_task task rows).0 + (delete_task task rows).1 ≡ length rows)
unfolding delete_task
delete_task_lem task [] = (refl, refl, omega arith)
delete_task_lem task (m ∷ ms) =
    let (a, b, c) = delete_task_lem task ms in (ground arith, ground arith, ground arith)
