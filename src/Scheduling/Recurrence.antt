-- ===== src/Scheduling/Recurrence.antt =====
-- The sweep hook for recurring tasks: modules/scheduling/recurrence.ts. The cron parser, with the
-- installation's time zone, is the parameter `cron`: the next run after an instant, `none` where it
-- throws. The ids that a tick draws are the parameter `new_id`.
pub mod Rearm
pub mod Ticks
pub mod Backoff
use aimclaw.Base.{
  ℕ, zero, suc, ◌+◌, ◌-◌, ◌*◌, ◌^◌, max, min, String, Bool, true, false, Option, none, some, List,
  [], ◌∷◌, ◌++◌, leb, ltb, ◌==◌, if◌then◌else◌,
}
use aimclaw.SessionDb.{Status, pending, paused, Stamp, at, MessageIn, insert_row, or_default}
use aimclaw.Scheduling.{
  trailing_failed_runs, insert_recurrence, insert_task_row, clear_recurrence,
  get_completed_recurring,
}

abbrev pub script_fail_pause_cap : ℕ
script_fail_pause_cap = 8

abbrev script_backoff_cap_min : ℕ
script_backoff_cap_min = 60

-- With no failure the source's exponent is -1, which gives one minute.
unfoldable pub script_backoff_minutes : ℕ → ℕ
script_backoff_minutes zero = 1
script_backoff_minutes (suc fails) = min (2 * 2 ^ fails) script_backoff_cap_min

-- the time of the next run, from the cron time and the streak
unfoldable pub next_run : ℕ → ℕ → ℕ → ℕ
unfolding script_backoff_minutes
next_run now cron_next fails =
    max cron_next (if ltb 0 fails then (now + script_backoff_minutes fails * 60000) else 0)

-- A line that `appendHostTaskNote` writes: the series and its streak.
pub record Note : Type 0 where
  pub series : Option String
  pub fails : ℕ

pub record Tick : Type 0 where
  pub rows : List MessageIn
  pub notes : List Note

abbrev pub series_key : MessageIn → String
series_key msg = or_default msg.series_id msg.id

-- The body of the loop after the cron expression is parsed. An insert that throws is caught.
unfoldable pub rearm_at : ℕ → ℕ → String → MessageIn → Tick → Tick
rearm_at now cron_next id msg tick =
    let fails = trailing_failed_runs tick.rows (series_key msg) in
    if leb script_fail_pause_cap fails
    then (elim (insert_recurrence now msg id (some (at cron_next)) paused tick.rows) [
      | none ↦ tick
      | some rows ↦ record {
        rows = clear_recurrence msg.id rows;
        notes = tick.notes ++ (record { series = msg.series_id; fails = fails }) ∷ [];
      }
    ])
    else (elim (insert_recurrence now msg id (some (at (next_run now cron_next fails))) pending
        tick.rows) [
          | none ↦ tick
          | some rows ↦ record tick { rows = clear_recurrence msg.id rows }
        ])

module _ (cron : String → ℕ → Option ℕ) (new_id : ℕ → String) where
  abbrev pub cron_of : ℕ → Option String → Option ℕ
  cron_of now none = none
  cron_of now (some expression) = cron expression now

  unfoldable pub rearm : ℕ → ℕ → MessageIn → Tick → Tick
  unfolding rearm_at
  rearm now k msg tick = elim (cron_of now msg.recurrence) [
    | none ↦ tick
    | some cron_next ↦ rearm_at now cron_next (new_id k) msg tick
  ]

  unfoldable pub rearm_all : ℕ → ℕ → List MessageIn → Tick → Tick
  unfolding rearm
  rearm_all now k [] tick = tick
  rearm_all now k (msg ∷ msgs) tick = rearm_all now (k + 1) msgs (rearm now k msg tick)

  unfoldable pub handle_recurrence : ℕ → List MessageIn → Tick
  unfolding rearm_all get_completed_recurring
  handle_recurrence now rows =
      rearm_all now 0 (get_completed_recurring rows) (record { rows = rows; notes = [] })
