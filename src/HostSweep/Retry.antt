-- ===== src/HostSweep/Retry.antt =====
-- What `resetStuckProcessingRows` makes of each row of messages_in.
use aimclaw.Base.{
  ℕ, ◌+◌, ◌*◌, String, str_eq, str_eq_iff, str_eq_refl, ◌≡◌, ◌≢◌, refl, ap, ◌∙◌, Bool, true, false,
  not, ◌||◌, Option, none, some, List, [], ◌∷◌, map, All, any, update_where, leb, if◌then◌else◌,
  arith, Bool-cases, inl, inr,
}
use mathlib.Core.Path.{subst}
use aimclaw.SessionDb.{
  MessageIn, Status, at, ProcessingAck, is_pending, has_id, mark_message_failed, retry_with_backoff,
  get_message_for_retry,
}
use aimclaw.HostSweep.{is_later, max_tries, backoff_sec, retry}

-- A row that its own id names once: no other row of the table has it.
abbrev pub HaveDistinctIds : List MessageIn → Type 0
HaveDistinctIds [] = Unit
HaveDistinctIds (m ∷ ms) = All (λ n. n.id ≢ m.id) ms × HaveDistinctIds ms

abbrev pub AreDistinctClaims : List ProcessingAck → Type 0
AreDistinctClaims [] = Unit
AreDistinctClaims (c ∷ cs) = All (λ d. d.message_id ≢ c.message_id) cs × AreDistinctClaims cs

-- What becomes of one claimed row: only a pending row whose next try is not in the future changes.
abbrev pub retried : ℕ → MessageIn → MessageIn
retried now m =
    if not (is_pending m.status) || is_later now m.process_after
    then m
    else if leb max_tries m.tries
    then record m { status = Status.failed }
    else record m {
      tries = m.tries + 1;
      process_after = some (at (now + backoff_sec m.tries * 1000));
    }

abbrev pub retried_if : ℕ → String → MessageIn → MessageIn
retried_if now id m = if has_id id m then retried now m else m

abbrev pub claimed : List ProcessingAck → MessageIn → Bool
claimed claims m = any (λ c. str_eq m.id c.message_id) claims

abbrev pub retried_by : ℕ → List ProcessingAck → MessageIn → MessageIn
retried_by now claims m = if claimed claims m then retried now m else m

module _ (f : MessageIn → MessageIn) (keeps : (m : MessageIn) → (f m).id ≡ m.id) where
  All-map :
      (x : String) (rows : List MessageIn)
      → All (λ n. n.id ≢ x) rows
      → All (λ n. n.id ≢ x) (map f rows)
  All-map x [] h = tt
  All-map x (m ∷ ms) (p, h) = (rw (keeps m) p, All-map x ms h)

  pub HaveDistinctIds-map :
      (rows : List MessageIn) → HaveDistinctIds rows → HaveDistinctIds (map f rows)
  HaveDistinctIds-map [] h = tt
  HaveDistinctIds-map (m ∷ ms) (p, h) = (rw (keeps m) (All-map m.id ms p), HaveDistinctIds-map ms h)

update_where-absent :
    (id : String) (f : MessageIn → MessageIn) (rows : List MessageIn)
    → All (λ n. n.id ≢ id) rows
    → update_where (has_id id) f rows ≡ rows
update_where-absent id f [] h = refl
update_where-absent id f (m ∷ ms) (p, h) =
    ground (arith, update_where-absent id f ms h, str_eq_iff m.id id)

map-absent :
    (now : ℕ) (id : String) (rows : List MessageIn)
    → All (λ n. n.id ≢ id) rows
    → map (retried_if now id) rows ≡ rows
map-absent now id [] h = refl
map-absent now id (m ∷ ms) (p, h) = ground (arith, map-absent now id ms h, str_eq_iff m.id id)

find-absent :
    (id : String) (rows : List MessageIn)
    → All (λ n. n.id ≢ id) rows
    → get_message_for_retry id rows ≡ none
unfolding get_message_for_retry
find-absent id [] h = refl
find-absent id (m ∷ ms) (p, h) = ground (arith, find-absent id ms h, str_eq_iff m.id id)

All-subst :
    (a b : String) (rows : List MessageIn)
    → a ≡ b
    → All (λ n. n.id ≢ a) rows
    → All (λ n. n.id ≢ b) rows
All-subst a b rows e h = subst (λ x. All (λ n. n.id ≢ x) rows) e h

find-here :
    (id : String) (m : MessageIn) (ms : List MessageIn)
    → str_eq m.id id ≡ true
    → get_message_for_retry id ms ≡ none
    → get_message_for_retry id (m ∷ ms) ≡ (if is_pending m.status then some m else none)
unfolding get_message_for_retry
find-here id m ms e h = ground arith

find-later :
    (id : String) (m : MessageIn) (ms : List MessageIn)
    → str_eq m.id id ≡ false
    → get_message_for_retry id (m ∷ ms) ≡ get_message_for_retry id ms
unfolding get_message_for_retry
find-later id m ms e = ground arith

find-id :
    (id : String) (msg : MessageIn) (rows : List MessageIn)
    → get_message_for_retry id rows ≡ some msg
    → msg.id ≡ id
unfolding get_message_for_retry
find-id id msg [] e = cc
find-id id msg (m ∷ ms) e = ground (arith, find-id id msg ms, str_eq_iff m.id id)

retry-here :
    (now : ℕ) (m : MessageIn) (ms : List MessageIn)
    → All (λ n. n.id ≢ m.id) ms
    → retry now (if is_pending m.status then some m else none) (m ∷ ms) ≡ retried now m ∷ ms
unfolding mark_message_failed retry_with_backoff
retry-here now m ms h = ground (
  arith,
  str_eq_refl m.id,
  update_where-absent m.id (λ n. record n { status = Status.failed }) ms h,
  update_where-absent m.id
      (λ n. record n {
        tries = n.tries + 1;
        process_after = some (at (now + backoff_sec m.tries * 1000));
      })
      ms h,
)

retry-later :
    (now : ℕ) (o : Option MessageIn) (m : MessageIn) (ms : List MessageIn)
    → ((msg : MessageIn) → o ≡ some msg → str_eq m.id msg.id ≡ false)
    → retry now o (m ∷ ms) ≡ m ∷ retry now o ms
unfolding mark_message_failed retry_with_backoff
retry-later now none m ms h = refl
retry-later now (some msg) m ms h = ground (arith, h msg refl)

-- one claim
pub retry-eq-map :
    (now : ℕ) (id : String) (rows : List MessageIn)
    → HaveDistinctIds rows
    → retry now (get_message_for_retry id rows) rows ≡ map (retried_if now id) rows
retry-eq-map now id [] h = rw (find-absent id [] tt) refl
retry-eq-map now id (m ∷ ms) (p, h) = elim (Bool-cases (str_eq m.id id)) [
  | inl e ↦
      let same : m.id ≡ id = (str_eq_iff m.id id).0 e in
      let apart = All-subst m.id id ms same p in
      rw (find-here id m ms e (find-absent id ms apart), e, map-absent now id ms apart)
        (retry-here now m ms p)
  | inr e ↦
      rw (find-later id m ms e, e)
        (retry-later now (get_message_for_retry id ms) m ms
            (λ msg found. rw (find-id id msg ms found) e)
          ∙ ap (λ t. m ∷ t) (retry-eq-map now id ms h))
]
