-- ===== src/Scheduling/Recurrence/Ticks.antt =====
-- The whole tick of the recurrence hook.
use aimclaw.Base.{
  ℕ, ◌+◌, ◌≤◌, String, str_eq, str_eq_iff, ◌≡◌, ◌≢◌, sym, ap, ◌∙◌, false, Option, none, List, [],
  ◌∷◌, ◌++◌, All, any, filter, length, length-append, arith, Bool-cases, Option-cases, inl, inr,
}
use mathlib.Core.Path.{subst}
use aimclaw.SessionDb.{MessageIn, has_id}
use aimclaw.Scheduling.{clear_recurrence, is_recurring, get_completed_recurring}
use aimclaw.Scheduling.Recurrence.{Tick, cron_of, rearm, rearm_all, handle_recurrence}
use aimclaw.Scheduling.Recurrence.Rearm.{
  Covered, Covered-clear, Covered-filter, filter-nil, any-clear, length-clear, Arms, rearm_at-Arms,
}

module _ (cron : String → ℕ → Option ℕ) (new_id : ℕ → String) where
  -- The ids drawn from the k-th on are free.
  abbrev pub AreFree : ℕ → List MessageIn → Type 0
  AreFree k rows = (j : ℕ) → k ≤ j → any (has_id (new_id j)) rows ≡ false

  abbrev pub AreDistinct : Type 0
  AreDistinct = (i j : ℕ) → new_id i ≡ new_id j → i ≡ j

  -- The cron parser accepts the expression.
  abbrev pub Parses : ℕ → MessageIn → Type 0
  Parses now m = cron_of cron new_id now m.recurrence ≢ none

  rearm-Arms :
      (now k : ℕ) (msg : MessageIn) (tick : Tick)
      → Parses now msg
      → any (has_id (new_id k)) tick.rows ≡ false
      → Arms (new_id k) msg tick.rows (rearm cron new_id now k msg tick)
  unfolding rearm
  rearm-Arms now k msg tick parses free =
      elim (Option-cases (cron_of cron new_id now msg.recurrence)) [
        | inl e ↦ absurd (parses e)
        | inr (next, e) ↦ rw (e, rearm) (rearm_at-Arms now next (new_id k) msg tick free)
      ]

  AreFree-next :
      (k : ℕ) (msg row : MessageIn) (rows : List MessageIn)
      → AreDistinct
      → row.id ≡ new_id k
      → AreFree k rows
      → AreFree (k + 1) (clear_recurrence msg.id (rows ++ row ∷ []))
  AreFree-next k msg row rows distinct e free j le =
      any-clear (new_id j) msg row rows
        (elim (Bool-cases (str_eq row.id (new_id j))) [
          | inl same ↦
              absurd (omega (arith, distinct k j (sym e ∙ (str_eq_iff row.id (new_id j)).0 same)))
          | inr other ↦ other
        ])
        (free j (omega arith))

  rearm_all_lem :
      (now k : ℕ) (msgs : List MessageIn) (tick : Tick)
      → AreDistinct
      → AreFree k tick.rows
      → All (Parses now) msgs
      → Covered msgs tick.rows
      → (get_completed_recurring (rearm_all cron new_id now k msgs tick).rows ≡ [])
        × (length (rearm_all cron new_id now k msgs tick).rows ≡ length tick.rows + length msgs)
  unfolding rearm_all get_completed_recurring
  rearm_all_lem now k [] tick d free parses covered = (filter-nil tick.rows covered, omega arith)
  rearm_all_lem now k (msg ∷ msgs) tick d free (p, parses) covered =
      let (row, i, t, e) = rearm-Arms now k msg tick p (free k (omega arith)) in
      let tick' = rearm cron new_id now k msg tick in
      let free' : AreFree (k + 1) tick'.rows = rw e (AreFree-next k msg row tick.rows d i free) in
      let covered' : Covered msgs tick'.rows =
        subst (Covered msgs) (sym e) (Covered-clear msg row msgs tick.rows t covered) in
      let (none_left, longer) = rearm_all_lem now (k + 1) msgs tick' d free' parses covered' in
      (none_left, longer-by-one tick tick' msg row msgs e longer)
    where
      longer-by-one :
          (s t : Tick) (msg row : MessageIn) (msgs : List MessageIn) {n : ℕ}
          → t.rows ≡ clear_recurrence msg.id (s.rows ++ row ∷ [])
          → n ≡ length t.rows + length msgs
          → n ≡ length s.rows + length (msg ∷ msgs)
      longer-by-one s t msg row msgs e h = omega (
        arith,
        ap length e,
        length-clear msg.id (s.rows ++ row ∷ []),
        length-append s.rows (row ∷ []),
      )

  -- Where the cron parser accepts the expression of every finished occurrence that recurs, and the ids
  -- drawn are distinct and free, one tick adds one row for each such occurrence and leaves none
  -- of them to be armed again.
  pub handle_recurrence_arms_once :
      (now : ℕ) (rows : List MessageIn)
      → AreDistinct
      → AreFree 0 rows
      → All (Parses now) (get_completed_recurring rows)
      → (get_completed_recurring (handle_recurrence cron new_id now rows).rows ≡ [])
        × (length (handle_recurrence cron new_id now rows).rows
            ≡ length rows + length (get_completed_recurring rows))
  unfolding handle_recurrence
  handle_recurrence_arms_once now rows d free parses =
      rearm_all_lem now 0 (filter is_recurring rows) _ d free parses (Covered-filter rows)
