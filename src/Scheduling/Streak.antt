-- ===== src/Scheduling/Streak.antt =====
-- The failure streak of a series, which `trailingFailedRuns` reads off the occurrence rows.
use aimclaw.Base.{
  ◌+◌, ◌<◌, String, ◌≡◌, refl, ap, ◌∙◌, Bool, List, [], ◌∷◌, ◌++◌, All, filter, if◌then◌else◌,
  arith, Bool-cases, inl, inr,
}
use aimclaw.SessionDb.{MessageIn}
use aimclaw.Scheduling.{insert_desc, order_desc, is_failed, is_run, trailing_failed_runs}

abbrev IsBelow : MessageIn → MessageIn → Type 0
IsBelow r m = m.seq < r.seq

insert_desc-cons :
    (m r : MessageIn) (ns : List MessageIn)
    → m.seq < r.seq
    → insert_desc m (r ∷ ns) ≡ r ∷ insert_desc m ns
unfolding insert_desc
insert_desc-cons m r ns h = ground arith

order_desc-concat :
    (r : MessageIn) (rows : List MessageIn)
    → All (IsBelow r) rows
    → order_desc (rows ++ r ∷ []) ≡ r ∷ order_desc rows
unfolding order_desc insert_desc
order_desc-concat r [] h = refl
order_desc-concat r (m ∷ ms) (p, h) =
    ap (insert_desc m) (order_desc-concat r ms h) ∙ insert_desc-cons m r (order_desc ms) p

filter-concat :
    (p : MessageIn → Bool) (r : MessageIn) (rows : List MessageIn)
    → filter p (rows ++ r ∷ []) ≡ filter p rows ++ (if p r then r ∷ [] else [])
filter-concat p r [] = refl
filter-concat p r (m ∷ ms) = ground (arith, filter-concat p r ms)

All-filter :
    (p : MessageIn → Bool) (r : MessageIn) (rows : List MessageIn)
    → All (IsBelow r) rows
    → All (IsBelow r) (filter p rows)
All-filter p r [] h = tt
All-filter p r (m ∷ ms) (q, h) = elim (Bool-cases (p m)) [
  | inl e ↦ rw e (q, All-filter p r ms h)
  | inr e ↦ rw e (All-filter p r ms h)
]

append-nil : (rows : List MessageIn) → rows ++ [] ≡ rows
append-nil [] = refl
append-nil (m ∷ ms) = ap (λ t. m ∷ t) (append-nil ms)

-- The streak derived from the rows is the counter that nobody stores. When the newest row is a
-- finished run of the series, a failure adds one to the streak of the older rows and a completion
-- sets it to zero; any other newest row leaves it.
pub trailing_failed_runs-concat :
    (key : String) (r : MessageIn) (rows : List MessageIn)
    → All (λ m. m.seq < r.seq) rows
    → trailing_failed_runs (rows ++ r ∷ []) key ≡ (
        if is_run key r
        then (if is_failed r.status then trailing_failed_runs rows key + 1 else 0)
        else trailing_failed_runs rows key)
unfolding trailing_failed_runs
trailing_failed_runs-concat key r rows h =
    rw (filter-concat (is_run key) r rows) (elim (Bool-cases (is_run key r)) [
      | inl e ↦ rw (e, order_desc-concat r _ (All-filter (is_run key) r rows h)) refl
      | inr e ↦ rw (e, append-nil _) refl
    ])
