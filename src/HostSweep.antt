-- ===== src/HostSweep.antt =====
-- The periodic maintenance of a session: host-sweep.ts. Differences of instants stop at 0 here, and
-- each is only compared with a bound that is not negative.
pub mod Decision
pub mod Retry
pub mod Reset
pub mod Giveup
pub mod Sessions
use aimclaw.Base.{
  ℕ, ◌+◌, ◌-◌, ◌*◌, ◌/◌, ◌^◌, max, String, str_eq, is_text, Bool, true, false, not, ◌&&◌, ◌||◌,
  Option, none, some, List, [], ◌∷◌, leb, ltb, ◌==◌, if◌then◌else◌, count,
}
use text.Mathlib.Text.{starts_with}
use aimclaw.SessionDb.{
  Stamp, invalid, at, MessageIn, ProcessingAck, count_due_messages, mark_message_failed,
  retry_with_backoff, get_message_for_retry, sync_processing_acks, get_processing_claims,
  delete_orphan_processing_claims,
}
use aimclaw.Scheduling.{is_any_live_task}
use aimclaw.Scheduling.Recurrence.{handle_recurrence}

abbrev pub absolute_ceiling_ms : ℕ
absolute_ceiling_ms = 1800000

abbrev pub claim_stuck_ms : ℕ
claim_stuck_ms = 60000

abbrev pub max_tries : ℕ
max_tries = 5

abbrev pub backoff_base_ms : ℕ
backoff_base_ms = 5000

pub record ContainerState : Type 0 where
  pub current_tool : Option String
  pub tool_declared_timeout_ms : Option ℕ

pub data StuckDecision : Type 0 where
  ok : StuckDecision
  kill_ceiling : (heartbeat_age_ms ceiling_ms : ℕ) → StuckDecision
  kill_claim : (message_id : String) (claim_age_ms tolerance_ms : ℕ) → StuckDecision

-- 0 stands for `null`: the callers take a maximum with it.
unfoldable pub bash_timeout_ms : Option ContainerState → ℕ
bash_timeout_ms none = 0
bash_timeout_ms (some state) =
    if is_text state.current_tool "Bash"
    then (elim state.tool_declared_timeout_ms [ none ↦ 0 | some ms ↦ ms ])
    else 0

-- one round of the loop over the claims, with the decision of the later rounds
unfoldable pub judge : ℕ → ℕ → ℕ → String → Stamp → StuckDecision → StuckDecision
judge now heartbeat tolerance id invalid rest = rest
judge now heartbeat tolerance id (at claimed_at) rest =
    if leb (now - claimed_at) tolerance
    then rest
    else if ltb claimed_at heartbeat
    then rest
    else kill_claim id (now - claimed_at) tolerance

unfoldable pub first_stuck : ℕ → ℕ → ℕ → List ProcessingAck → StuckDecision
unfolding judge
first_stuck now heartbeat tolerance [] = ok
first_stuck now heartbeat tolerance (claim ∷ claims) =
    judge now heartbeat tolerance claim.message_id claim.status_changed
      (first_stuck now heartbeat tolerance claims)

-- A heartbeat of 0 says that there is no heartbeat file.
unfoldable pub decide_stuck_action :
    ℕ → ℕ → Option ContainerState → List ProcessingAck → StuckDecision
unfolding first_stuck bash_timeout_ms
decide_stuck_action now heartbeat state claims =
    let declared = bash_timeout_ms state in
    let ceiling = max absolute_ceiling_ms declared in
    let tolerance = max claim_stuck_ms declared in
    let by_claims = first_stuck now heartbeat tolerance claims in
    if heartbeat == 0
    then by_claims
    else if ltb ceiling (now - heartbeat)
    then kill_ceiling (now - heartbeat) ceiling
    else by_claims

-- `msg.processAfter && parseSqliteUtc(msg.processAfter) > now`: no comparison with NaN holds.
abbrev pub is_later : ℕ → Option Stamp → Bool
is_later now none = false
is_later now (some invalid) = false
is_later now (some (at ms)) = ltb now ms

abbrev pub backoff_sec : ℕ → ℕ
backoff_sec tries = backoff_base_ms * 2 ^ tries / 1000

abbrev pub retry : ℕ → Option MessageIn → List MessageIn → List MessageIn
retry now none rows = rows
retry now (some msg) rows =
    if is_later now msg.process_after
    then rows
    else if leb max_tries msg.tries
    then mark_message_failed msg.id rows
    else retry_with_backoff now msg.id (backoff_sec msg.tries) rows

unfoldable pub retry_claims : ℕ → List ProcessingAck → List MessageIn → List MessageIn
retry_claims now [] rows = rows
retry_claims now (claim ∷ claims) rows =
    retry_claims now claims (retry now (get_message_for_retry claim.message_id rows) rows)

pub record Outbound : Type 0 where
  pub acks : List ProcessingAck
  pub state : Option ContainerState

-- What a sweep reads and writes of a session. `wake` and `kill` say that the container was told to
-- start and to stop.
pub record Swept : Type 0 where
  pub rows : List MessageIn
  pub outbound : Option Outbound
  pub wake : Bool
  pub kill : Bool
  pub closed : Bool

-- What the world answers during the sweep of a session: the clock, the heartbeat file's time, whether
-- the files are there, whether a container runs at the start, after a wake, and at the end, and
-- whether outbound.db opens for writing.
pub record World : Type 0 where
  pub now : ℕ
  pub heartbeat : ℕ
  pub has_inbound : Bool
  pub running : Bool
  pub woken : Bool
  pub running_at_end : Bool
  pub opens_for_writing : Bool
  pub cron : String → ℕ → Option ℕ
  pub new_id : ℕ → String

abbrev pub clear_claims : Bool → Outbound → Outbound
clear_claims opens out =
    if opens then record out { acks = (delete_orphan_processing_claims out.acks).0 } else out

unfoldable pub reset_stuck_processing_rows : World → Outbound → Swept → Swept
unfolding retry_claims
reset_stuck_processing_rows w out s = record s {
  rows = retry_claims w.now (get_processing_claims out.acks) s.rows;
  outbound = some (clear_claims w.opens_for_writing out);
}

abbrev pub enforce : StuckDecision → World → Outbound → Swept → Swept
enforce ok w out s = s
enforce _ w out s = record (reset_stuck_processing_rows w out s) { kill = true }

unfoldable pub enforce_running_container_sla : World → Outbound → Swept → Swept
unfolding decide_stuck_action reset_stuck_processing_rows
enforce_running_container_sla w out s =
    enforce (decide_stuck_action w.now w.heartbeat out.state (get_processing_claims out.acks)) w out
      s

abbrev tasks_thread : String
tasks_thread = "system:tasks"

unfoldable pub is_task_thread : Option String → Bool
is_task_thread none = false
is_task_thread (some t) = str_eq t tasks_thread || starts_with t "system:tasks:"

unfoldable pub should_close_task_session : Option String → Bool → ℕ → Bool
unfolding is_task_thread
should_close_task_session thread running live = is_task_thread thread && (not running && live == 0)

abbrev pub sync_with : Option Outbound → List MessageIn → List MessageIn
sync_with none rows = rows
sync_with (some out) rows = sync_processing_acks rows out.acks

-- steps 3 and 4
unfoldable pub check_container : World → Bool → Option Outbound → Swept → Swept
unfolding enforce_running_container_sla reset_stuck_processing_rows
check_container w just_woke none s = s
check_container w just_woke (some out) s =
    if (if just_woke then w.woken else w.running)
    then (if just_woke then s else enforce_running_container_sla w out s)
    else reset_stuck_processing_rows w out s

abbrev pub wants_wake : World → List MessageIn → Bool
wants_wake w rows = ltb 0 (count_due_messages w.now rows) && not w.running

-- all steps, once the databases are open
unfoldable pub sweep_open : World → Option String → Swept → Swept
unfolding check_container should_close_task_session
sweep_open w thread s =
    let synced = sync_with s.outbound s.rows in
    let just_woke = wants_wake w synced in
    let checked =
      check_container w just_woke s.outbound (record s { rows = synced; wake = just_woke }) in
    let tick = handle_recurrence w.cron w.new_id w.now checked.rows in
    let live = count is_any_live_task tick.rows in
    record checked {
      rows = tick.rows;
      closed = checked.closed || should_close_task_session thread w.running_at_end live;
    }

unfoldable pub sweep_session : World → Option String → Swept → Swept
unfolding sweep_open
sweep_session w thread s = if w.has_inbound then sweep_open w thread s else s
