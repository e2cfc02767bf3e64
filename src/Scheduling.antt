-- ===== src/Scheduling.antt =====
-- Scheduled tasks: modules/scheduling/db.ts. A task is a row of messages_in of the kind 'task'.
pub mod Recurrence
pub mod Tasks
pub mod Streak
use aimclaw.Base.{
  ◌>>=◌, ℕ, ◌+◌, String, str_eq, is_text, Bool, true, false, not, ◌&&◌, ◌||◌, Option, none, some,
  List, [], ◌∷◌, ◌++◌, leb, if◌then◌else◌, filter, count, update_where, length,
}
use aimclaw.Json.{Json, Content, null, str, raw, json, with_property}
use aimclaw.SessionDb.{
  Status, pending, paused, cancelled, Stamp, MessageIn, is_pending, is_terminal, has_id,
  next_even_seq, insert_row,
}

pub record NewTask : Type 0 where
  pub id : String
  pub series_id : Option String
  pub process_after : Option Stamp
  pub recurrence : Option String
  pub content : Content
  pub status : Status
  pub platform_id : Option String
  pub channel_type : Option String
  pub thread_id : Option String

abbrev pub task_row : ℕ → NewTask → List MessageIn → MessageIn
task_row now row rows = record {
  id = row.id;
  seq = next_even_seq rows;
  kind = "task";
  timestamp = now;
  status = row.status;
  process_after = row.process_after;
  recurrence = row.recurrence;
  series_id = row.series_id;
  tries = 0;
  trigger = true;
  platform_id = row.platform_id;
  channel_type = row.channel_type;
  thread_id = row.thread_id;
  content = row.content;
  source_session_id = none;
  on_wake = false;
}

unfoldable pub insert_task_row : ℕ → NewTask → List MessageIn → Option (List MessageIn)
insert_task_row now row rows = insert_row (task_row now row rows) rows

-- (id = ? OR series_id = ?) AND kind = 'task'
abbrev pub in_series : String → MessageIn → Bool
in_series task m = (str_eq m.id task || is_text m.series_id task) && str_eq m.kind "task"

abbrev pub is_paused : Status → Bool
is_paused paused = true
is_paused _ = false

-- status IN ('pending', 'paused')
abbrev pub is_live : Status → Bool
is_live s = is_pending s || is_paused s

abbrev pub cancel : MessageIn → MessageIn
cancel m = record m { status = cancelled; recurrence = none }

abbrev pub is_live_task : String → MessageIn → Bool
is_live_task task m = in_series task m && is_live m.status

-- An update returns the rows and the number of rows that it changed.
unfoldable pub cancel_task : String → List MessageIn → List MessageIn × ℕ
cancel_task task rows =
    (update_where (is_live_task task) cancel rows, count (is_live_task task) rows)

abbrev pub is_any_live_task : MessageIn → Bool
is_any_live_task m = str_eq m.kind "task" && is_live m.status

unfoldable pub cancel_all_tasks : List MessageIn → List MessageIn × ℕ
cancel_all_tasks rows = (update_where is_any_live_task cancel rows, count is_any_live_task rows)

abbrev pub set_status : Status → MessageIn → MessageIn
set_status s m = record m { status = s }

unfoldable pub pause_task : String → List MessageIn → List MessageIn × ℕ
pause_task task rows =
    let hit = λ (m : MessageIn). in_series task m && is_pending m.status in
    (update_where hit (set_status paused) rows, count hit rows)

unfoldable pub resume_task : String → List MessageIn → List MessageIn × ℕ
resume_task task rows =
    let hit = λ (m : MessageIn). in_series task m && is_paused m.status in
    (update_where hit (set_status pending) rows, count hit rows)

unfoldable pub delete_task : String → List MessageIn → List MessageIn × ℕ
delete_task task rows = (filter (λ m. not (in_series task m)) rows, count (in_series task) rows)

-- An absent field is none, and a null one is `some none`.
pub record TaskUpdate : Type 0 where
  pub prompt : Option String
  pub script : Option (Option String)
  pub recurrence : Option (Option String)
  pub process_after : Option Stamp

abbrev or_null : Option String → Json
or_null none = null
or_null (some s) = str s

abbrev set_prompt : Option String → Json → Option Json
set_prompt none j = some j
set_prompt (some p) j = with_property "prompt" (str p) j

abbrev set_script : Option (Option String) → Json → Option Json
set_script none j = some j
set_script (some s) j = with_property "script" (or_null s) j

-- `none` where JSON.parse or the assignment throws
merge : Option String → Option (Option String) → Content → Option Content
merge none none c = some c
merge prompt script (raw s) = none
merge prompt script (json j) = do
  j' ← set_prompt prompt j
  j'' ← set_script script j'
  some (json j'')

abbrev replace : TaskUpdate → Content → MessageIn → MessageIn
replace update content m = record m {
  content = content;
  process_after = elim update.process_after [ none ↦ m.process_after | some s ↦ some s ];
  recurrence = elim update.recurrence [ none ↦ m.recurrence | some r ↦ r ];
}

-- the loop of the transaction, which is rolled back when it throws
update_rows : TaskUpdate → List MessageIn → List MessageIn → Option (List MessageIn)
update_rows update [] rows = some rows
update_rows update (row ∷ selected) rows = do
  content ← merge update.prompt update.script row.content
  update_rows update selected (update_where (has_id row.id) (replace update content) rows)

unfoldable pub update_task : String → TaskUpdate → List MessageIn → Option (List MessageIn × ℕ)
unfolding update_rows merge with_property
update_task task update rows = do
  let selected = filter (is_live_task task) rows
  rows' ← update_rows update selected rows
  some (rows', length selected)

abbrev pub recurs : Option String → Bool
recurs none = false
recurs (some cron) = true

abbrev pub is_recurring : MessageIn → Bool
is_recurring m = is_terminal m.status && recurs m.recurrence

unfoldable pub get_completed_recurring : List MessageIn → List MessageIn
get_completed_recurring rows = filter is_recurring rows

-- ORDER BY seq DESC
pub insert_desc : MessageIn → List MessageIn → List MessageIn
insert_desc m [] = m ∷ []
insert_desc m (n ∷ ns) = if leb n.seq m.seq then m ∷ n ∷ ns else n ∷ insert_desc m ns

pub order_desc : List MessageIn → List MessageIn
order_desc [] = []
order_desc (m ∷ ms) = insert_desc m (order_desc ms)

abbrev pub is_failed : Status → Bool
is_failed Status.failed = true
is_failed _ = false

pub leading_failed : List MessageIn → ℕ
leading_failed [] = 0
leading_failed (m ∷ ms) = let rest = leading_failed ms in if is_failed m.status then rest + 1 else 0

abbrev pub is_run : String → MessageIn → Bool
is_run key m = in_series key m && is_terminal m.status

unfoldable pub trailing_failed_runs : List MessageIn → String → ℕ
unfolding insert_desc order_desc leading_failed
trailing_failed_runs rows key = leading_failed (order_desc (filter (is_run key) rows))

unfoldable pub insert_recurrence :
    ℕ → MessageIn → String → Option Stamp → Status → List MessageIn → Option (List MessageIn)
unfolding insert_task_row
insert_recurrence now msg id next status rows =
    insert_task_row now
      (record {
        id = id;
        series_id = msg.series_id;
        process_after = next;
        recurrence = msg.recurrence;
        content = msg.content;
        status = status;
        platform_id = msg.platform_id;
        channel_type = msg.channel_type;
        thread_id = msg.thread_id;
      })
      rows

unfoldable pub clear_recurrence : String → List MessageIn → List MessageIn
clear_recurrence id rows = update_where (has_id id) (λ m. record m { recurrence = none }) rows
