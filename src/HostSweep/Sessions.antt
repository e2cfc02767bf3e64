-- ===== src/HostSweep/Sessions.antt =====
-- A sweep of one session, from waking to closing.
use aimclaw.Base.{
  ℕ, String, ◌≡◌, ◌≢◌, refl, sym, ap, ◌∙◌, Bool, true, false, Option, none, some, List, [], ◌∷◌,
  count, arith, Bool-cases, inl, inr,
}
use aimclaw.SessionDb.{ProcessingAck, get_processing_claims, delete_orphan_processing_claims}
use aimclaw.Scheduling.{is_any_live_task}
use aimclaw.HostSweep.{
  World, Swept, Outbound, StuckDecision, ok, decide_stuck_action, enforce,
  reset_stuck_processing_rows, check_container, sync_with, wants_wake, is_task_thread,
  should_close_task_session, sweep_open, sweep_session,
}

-- What the sweep reads of the container's own database.
abbrev pub decision_of : World → Outbound → StuckDecision
decision_of w out = decide_stuck_action w.now w.heartbeat out.state (get_processing_claims out.acks)

kill-enforce :
    (d : StuckDecision) (w : World) (out : Outbound) (s : Swept)
    → s.kill ≡ false
    → (enforce d w out s).kill ≡ true
    → d ≢ ok
kill-enforce ok w out s k e = cc
kill-enforce _ w out s k e = cc

check_container-kill :
    (w : World) (woke : Bool) (o : Option Outbound) (s : Swept)
    → s.kill ≡ false
    → (check_container w woke o s).kill ≡ true
    → (out : Outbound) × (o ≡ some out)
      × (woke ≡ false)
      × (w.running ≡ true)
      × (decision_of w out ≢ ok)
unfolding check_container
check_container-kill w woke none s k e = cc
check_container-kill w true (some out) s k e = ground arith
check_container-kill w false (some out) s k e = elim (Bool-cases w.running) [
  | inl r ↦ (out, refl, refl, r, kill-enforce (decision_of w out) w out s k (simp r at e))
  | inr r ↦ cc (simp r at e)
]

wake-check_container :
    (w : World) (woke : Bool) (o : Option Outbound) (s : Swept)
    → (check_container w woke o s).wake ≡ s.wake
unfolding check_container
wake-check_container w woke none s = refl
wake-check_container w woke (some out) s = ground arith

-- The state in which `check_container` finds the session.
abbrev synced : World → Swept → Swept
synced w s =
    let rows = sync_with s.outbound s.rows in record s { rows = rows; wake = wants_wake w rows }

sweep_open-kill :
    (w : World) (thread : Option String) (s : Swept)
    → s.kill ≡ false
    → (sweep_open w thread s).kill ≡ true
    → (out : Outbound) × (s.outbound ≡ some out)
      × (w.running ≡ true)
      × (decision_of w out ≢ ok)
      × ((sweep_open w thread s).wake ≡ false)
unfolding sweep_open
sweep_open-kill w thread s k e =
    let t = synced w s in
    let (out, o, asleep, r, d) = check_container-kill w t.wake s.outbound t k e in
    (out, o, r, d, wake-check_container w t.wake s.outbound t ∙ asleep)

sweep_session-open :
    (w : World) (thread : Option String) (s : Swept)
    → w.has_inbound ≡ true
    → sweep_session w thread s ≡ sweep_open w thread s
unfolding sweep_session
sweep_session-open w thread s e = ground arith

sweep_session-missing :
    (w : World) (thread : Option String) (s : Swept)
    → w.has_inbound ≡ false
    → sweep_session w thread s ≡ s
unfolding sweep_session
sweep_session-missing w thread s e = ground arith

-- A sweep kills a container only if one was running when the sweep came to the session, with its
-- database there and by a decision that is not to leave it alone. It never kills a container in the
-- sweep that woke it.
pub sweep_session-kill :
    (w : World) (thread : Option String) (s : Swept)
    → s.kill ≡ false
    → (sweep_session w thread s).kill ≡ true
    → (out : Outbound) × (s.outbound ≡ some out)
      × (w.running ≡ true)
      × (decision_of w out ≢ ok)
      × ((sweep_session w thread s).wake ≡ false)
sweep_session-kill w thread s k e = elim (Bool-cases w.has_inbound) [
  | inl there ↦
      let same = sweep_session-open w thread s there in
      let (out, o, r, d, asleep) = sweep_open-kill w thread s k (ap (λ t. t.kill) (sym same) ∙ e) in
      (out, o, r, d, ap (λ t. t.wake) same ∙ asleep)
  | inr missing ↦ cc (sweep_session-missing w thread s missing)
]

no_claims-delete :
    (acks : List ProcessingAck)
    → get_processing_claims (delete_orphan_processing_claims acks).0 ≡ []
unfolding get_processing_claims delete_orphan_processing_claims
no_claims-delete [] = refl
no_claims-delete (a ∷ acks) = ground (arith, no_claims-delete acks)

-- No claim is left in the container's database.
abbrev pub HasNoClaims : Option Outbound → Type 0
HasNoClaims none = Unit
HasNoClaims (some out) = get_processing_claims out.acks ≡ []

HasNoClaims-reset :
    (w : World) (out : Outbound) (s : Swept)
    → w.opens_for_writing ≡ true
    → HasNoClaims (reset_stuck_processing_rows w out s).outbound
unfolding reset_stuck_processing_rows
HasNoClaims-reset w out s o = simp o (no_claims-delete out.acks)

HasNoClaims-enforce :
    (d : StuckDecision) (w : World) (out : Outbound) (s : Swept)
    → w.opens_for_writing ≡ true
    → d ≢ ok
    → HasNoClaims (enforce d w out s).outbound
HasNoClaims-enforce ok w out s o n = absurd (n refl)
HasNoClaims-enforce _ w out s o n = HasNoClaims-reset w out s o

-- No container runs once the sweep has tried to wake one, or the one that runs is to be killed.
abbrev pub IsLost : World → Bool → Outbound → Type 0
IsLost w true out = w.woken ≡ false
IsLost w false out = (w.running ≡ true → decision_of w out ≢ ok)

check_container-HasNoClaims :
    (w : World) (woke : Bool) (out : Outbound) (s : Swept)
    → w.opens_for_writing ≡ true
    → IsLost w woke out
    → HasNoClaims (check_container w woke (some out) s).outbound
unfolding check_container
check_container-HasNoClaims w true out s o lost = simp lost (HasNoClaims-reset w out s o)
check_container-HasNoClaims w false out s o lost = elim (Bool-cases w.running) [
  | inl r ↦ simp r (HasNoClaims-enforce (decision_of w out) w out s o (lost r))
  | inr r ↦ simp r (HasNoClaims-reset w out s o)
]

sweep_open-HasNoClaims :
    (w : World) (thread : Option String) (s : Swept) (out : Outbound)
    → s.outbound ≡ some out
    → w.opens_for_writing ≡ true
    → IsLost w (wants_wake w (sync_with (some out) s.rows)) out
    → HasNoClaims (sweep_open w thread s).outbound
unfolding sweep_open
sweep_open-HasNoClaims w thread s out e o lost =
    rw e (check_container-HasNoClaims w (wants_wake w (sync_with (some out) s.rows)) out _ o lost)

-- Where the databases are there and outbound.db opens for writing, a sweep that finds no container
-- running and starts none, or that kills the one that runs, leaves no processing claim behind. So the
-- next container is not taken for the one that made them.
pub sweep_session-HasNoClaims :
    (w : World) (thread : Option String) (s : Swept) (out : Outbound)
    → w.has_inbound ≡ true
    → s.outbound ≡ some out
    → w.opens_for_writing ≡ true
    → IsLost w (wants_wake w (sync_with (some out) s.rows)) out
    → HasNoClaims (sweep_session w thread s).outbound
sweep_session-HasNoClaims w thread s out there e o lost =
    rw (sweep_session-open w thread s there) (sweep_open-HasNoClaims w thread s out e o lost)

closed-check_container :
    (w : World) (woke : Bool) (o : Option Outbound) (s : Swept)
    → (check_container w woke o s).closed ≡ s.closed
unfolding check_container
closed-check_container w woke none s = refl
closed-check_container w woke (some out) s = ground arith

should_close_lem :
    (thread : Option String) (running : Bool) (live : ℕ)
    → should_close_task_session thread running live ≡ true
    → (is_task_thread thread ≡ true) × (running ≡ false) × (live ≡ 0)
unfolding should_close_task_session
should_close_lem thread running live e = ground arith

sweep_open-closed :
    (w : World) (thread : Option String) (s : Swept)
    → s.closed ≡ false
    → (sweep_open w thread s).closed ≡ true
    → (is_task_thread thread ≡ true)
      × (w.running_at_end ≡ false)
      × (count is_any_live_task (sweep_open w thread s).rows ≡ 0)
unfolding sweep_open
sweep_open-closed w thread s c e =
    let t = synced w s in
    should_close_lem thread w.running_at_end _
      (ground (arith, closed-check_container w t.wake s.outbound t))

-- A sweep closes a session only if it is that of a task series, no container runs, and no pending or
-- paused task is left after the finished ones were armed again.
pub sweep_session-closed :
    (w : World) (thread : Option String) (s : Swept)
    → s.closed ≡ false
    → (sweep_session w thread s).closed ≡ true
    → (is_task_thread thread ≡ true)
      × (w.running_at_end ≡ false)
      × (count is_any_live_task (sweep_session w thread s).rows ≡ 0)
sweep_session-closed w thread s c e = elim (Bool-cases w.has_inbound) [
  | inl there ↦
      let same = sweep_session-open w thread s there in
      rw same (sweep_open-closed w thread s c (ap (λ t. t.closed) (sym same) ∙ e))
  | inr missing ↦ cc (sweep_session-missing w thread s missing)
]
