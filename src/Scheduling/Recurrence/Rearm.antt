-- ===== src/Scheduling/Recurrence/Rearm.antt =====
-- One tick of the recurrence hook arms each finished occurrence again, once.
use aimclaw.Base.{
  ℕ, suc, String, str_eq, str_eq_refl, ◌≡◌, refl, sym, ap, Bool, true, false, Option, some, List,
  [], ◌∷◌, ◌++◌, All, any, filter, length, leb, arith, Bool-cases, inl, inr,
}
use mathlib.Core.Path.{subst}
use aimclaw.SessionDb.{MessageIn, Stamp, Status, pending, paused, at, has_id, is_terminal}
use aimclaw.SessionDb.Seq.{insert_row_fresh}
use aimclaw.Scheduling.{insert_recurrence, clear_recurrence, is_recurring, trailing_failed_runs}
use aimclaw.Scheduling.Recurrence.{Tick, series_key, script_fail_pause_cap, next_run, rearm_at}

-- The row is among the messages, by its id.
abbrev pub covers : List MessageIn → MessageIn → Bool
covers msgs m = any (λ n. str_eq m.id n.id) msgs

-- Every finished occurrence that still recurs is among the messages.
abbrev pub Covered : List MessageIn → List MessageIn → Type 0
Covered msgs rows = All (λ m. is_recurring m ≡ true → covers msgs m ≡ true) rows

Covered-cons :
    (n : MessageIn) (msgs rows : List MessageIn) → Covered msgs rows → Covered (n ∷ msgs) rows
Covered-cons n msgs [] h = tt
Covered-cons n msgs (m ∷ ms) (p, h) = (λ e. ground (arith, p e), Covered-cons n msgs ms h)

filter-cons_true :
    (m : MessageIn) (ms : List MessageIn)
    → is_recurring m ≡ true
    → filter is_recurring (m ∷ ms) ≡ m ∷ filter is_recurring ms
filter-cons_true m ms e = rw e

filter-cons_false :
    (m : MessageIn) (ms : List MessageIn)
    → is_recurring m ≡ false
    → filter is_recurring (m ∷ ms) ≡ filter is_recurring ms
filter-cons_false m ms e = rw e

pub Covered-filter : (rows : List MessageIn) → Covered (filter is_recurring rows) rows
Covered-filter [] = tt
Covered-filter (m ∷ ms) = elim (Bool-cases (is_recurring m)) [
  | inl e ↦
      subst (λ msgs. Covered msgs (m ∷ ms)) (sym (filter-cons_true m ms e))
        (
          (λ _. ground (arith, str_eq_refl m.id)),
          Covered-cons m (filter is_recurring ms) ms (Covered-filter ms),
        )
  | inr e ↦
      subst (λ msgs. Covered msgs (m ∷ ms)) (sym (filter-cons_false m ms e))
        ((λ e'. cc), Covered-filter ms)
]

pub filter-nil : (rows : List MessageIn) → Covered [] rows → filter is_recurring rows ≡ []
filter-nil [] h = refl
filter-nil (m ∷ ms) (p, h) = elim (Bool-cases (is_recurring m)) [
  | inl e ↦ cc (p e)
  | inr e ↦ rw e (filter-nil ms h)
]

pub Covered-clear :
    (msg row : MessageIn) (msgs rows : List MessageIn)
    → is_terminal row.status ≡ false
    → Covered (msg ∷ msgs) rows
    → Covered msgs (clear_recurrence msg.id (rows ++ row ∷ []))
unfolding clear_recurrence
Covered-clear msg row msgs [] t h = (λ e. ground arith, tt)
Covered-clear msg row msgs (m ∷ ms) t (p, h) =
    (λ e. ground (arith, p), Covered-clear msg row msgs ms t h)

pub any-clear :
    (x : String) (msg row : MessageIn) (rows : List MessageIn)
    → str_eq row.id x ≡ false
    → any (has_id x) rows ≡ false
    → any (has_id x) (clear_recurrence msg.id (rows ++ row ∷ [])) ≡ false
unfolding clear_recurrence
any-clear x msg row [] e h = ground arith
any-clear x msg row (m ∷ ms) e h = ground (arith, any-clear x msg row ms e)

pub length-clear :
    (id : String) (rows : List MessageIn) → length (clear_recurrence id rows) ≡ length rows
unfolding clear_recurrence
length-clear id [] = refl
length-clear id (m ∷ ms) = ap suc (length-clear id ms)

abbrev pub Arms : String → MessageIn → List MessageIn → Tick → Type 0
Arms id msg rows tick =
    (row : MessageIn) × (row.id ≡ id)
    × (is_terminal row.status ≡ false)
    × (tick.rows ≡ clear_recurrence msg.id (rows ++ row ∷ []))

-- An insert under a fresh id succeeds, whatever the rows.
insert_recurrence_fresh :
    (now : ℕ) (msg : MessageIn) (id : String) (next : Option Stamp) (status : Status)
    (rows : List MessageIn)
    → any (has_id id) rows ≡ false
    → (row : MessageIn) × (row.id ≡ id)
      × (row.status ≡ status)
      × (row.process_after ≡ next)
      × (insert_recurrence now msg id next status rows ≡ some (rows ++ row ∷ []))
unfolding insert_recurrence
insert_recurrence_fresh now msg id next status rows free =
    (_, refl, refl, refl, insert_row_fresh _ rows free refl)

-- Under a fresh id the body of the loop adds one row, which is not finished, and takes the
-- recurrence off the occurrence.
pub rearm_at-Arms :
    (now cron_next : ℕ) (id : String) (msg : MessageIn) (tick : Tick)
    → any (has_id id) tick.rows ≡ false
    → Arms id msg tick.rows (rearm_at now cron_next id msg tick)
unfolding rearm_at
rearm_at-Arms now cron_next id msg tick free =
    let fails = trailing_failed_runs tick.rows (series_key msg) in
    elim (Bool-cases (leb script_fail_pause_cap fails)) [
      | inl e ↦
          let (row, i, s, _, d) =
            insert_recurrence_fresh now msg id (some (at cron_next)) paused tick.rows free in
          (row, i, rw s, rw (e, d))
      | inr e ↦
          let (row, i, s, _, d) =
            insert_recurrence_fresh now msg id (some (at (next_run now cron_next fails))) pending
              tick.rows free in
          (row, i, rw s, rw (e, d))
    ]
