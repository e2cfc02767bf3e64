-- ===== src/Delivery/Messages/Settled.antt =====
-- What many polls make of a message: it is settled in the end, and not sent too often.
use aimclaw.Base.{
  ℕ, ◌+◌, ◌≤◌, ◌<◌, String, str_eq, str_eq_iff, ◌≡◌, inl, inr, refl, sym, ap, ◌∙◌, Bool, true,
  false, not, ◌&&◌, List, [], ◌∷◌, All, filter, count, length, arith, Bool-cases, ◌==◌,
  if◌then◌else◌,
}
use mathlib.Core.Path.{subst}
use aimclaw.SessionDb.{has_come}
use aimclaw.Delivery.{
  MessageOut, max_delivery_attempts, get_due_outbound_messages, in_order, insert_in_order,
  is_delivered,
}
use aimclaw.Delivery.Messages.{
  Host, Session, Queue, attempt, attempt_all, undelivered, drain_session,
}
use aimclaw.Delivery.Messages.Turns.{
  calls, settled, tried, Turn, Rests, Rests-trans, attempt-Rests, attempt-Turn,
}

abbrev named : String → MessageOut → Bool
named id m = str_eq m.id id

attempt_all-Rests :
    (h : Host) (s : Session) (id : String) (msgs : List MessageOut) (q : Queue)
    → count (named id) msgs ≡ 0
    → Rests id q (attempt_all h s msgs q)
unfolding attempt_all
attempt_all-Rests h s id [] q e = (refl, refl, refl)
attempt_all-Rests h s id (m ∷ ms) q e = elim (Bool-cases (str_eq m.id id)) [
  | inl t ↦ absurd (ground arith)
  | inr f ↦
      let next = attempt h s m q in
      Rests-trans id q next (attempt_all h s ms next) (attempt-Rests h s id m q f)
        (attempt_all-Rests h s id ms next (ground arith))
]

Turn-Rests : (id : String) (q q' q'' : Queue) → Turn id q q' → Rests id q' q'' → Turn id q q''
Turn-Rests id q q' q'' (a, b) (c, d, e) = (ground arith, ground arith)

Rests-Turn : (id : String) (q q' q'' : Queue) → Rests id q q' → Turn id q' q'' → Turn id q q''
Rests-Turn id q q' q'' (c, d, e) (a, b) = (ground arith, ground arith)

attempt_all-Turn :
    (h : Host) (s : Session) (id : String) (msgs : List MessageOut) (q : Queue)
    → count (named id) msgs ≡ 1
    → settled id q ≡ false
    → Turn id q (attempt_all h s msgs q)
unfolding attempt_all
attempt_all-Turn h s id [] q e u = absurd (omega arith)
attempt_all-Turn h s id (m ∷ ms) q e u = elim (Bool-cases (str_eq m.id id)) [
  | inl t ↦
      let next = attempt h s m q in
      let same : m.id ≡ id = (str_eq_iff m.id id).0 t in
      let own : Turn id q next =
        subst (λ k. settled k q ≡ false → Turn k q next) same (attempt-Turn h s m q) u in
      Turn-Rests id q next (attempt_all h s ms next) own
        (attempt_all-Rests h s id ms next (ground arith))
  | inr f ↦
      let next = attempt h s m q in
      let r = attempt-Rests h s id m q f in
      Rests-Turn id q next (attempt_all h s ms next) r
        (attempt_all-Turn h s id ms next (ground arith) (r.0 ∙ u))
]

count-insert :
    (id : String) (m : MessageOut) (ms : List MessageOut)
    → count (named id) (insert_in_order m ms) ≡ count (named id) (m ∷ ms)
unfolding insert_in_order
count-insert id m [] = refl
count-insert id m (n ∷ ns) = ground (arith, count-insert id m ns)

count-in_order :
    (id : String) (ms : List MessageOut) → count (named id) (in_order ms) ≡ count (named id) ms
unfolding in_order
count-in_order id [] = refl
count-in_order id (m ∷ ms) = ground (arith, count-insert id m (in_order ms), count-in_order id ms)

-- A due message with this id.
abbrev pub is_due_named : ℕ → String → MessageOut → Bool
is_due_named now id m = str_eq m.id id && has_come now m.deliver_after

count-due :
    (now : ℕ) (id : String) (ms : List MessageOut)
    → count (named id) (filter (λ m. has_come now m.deliver_after) ms)
      ≡ count (is_due_named now id) ms
count-due now id [] = refl
count-due now id (m ∷ ms) = ground (arith, count-due now id ms)

count-unsettled :
    (id : String) (q : Queue) (ms : List MessageOut)
    → count (named id) (filter (λ m. not (is_delivered q.delivered m.id)) ms)
      ≡ (if settled id q then 0 else count (named id) ms)
count-unsettled id q [] = ground arith
count-unsettled id q (m ∷ ms) = elim (Bool-cases (str_eq m.id id)) [
  | inl t ↦
      let same : m.id ≡ id = (str_eq_iff m.id id).0 t in
      ground (arith, count-unsettled id q ms, ap (is_delivered q.delivered) same)
  | inr f ↦ ground (arith, count-unsettled id q ms)
]

count-undelivered :
    (h : Host) (id : String) (rows : List MessageOut) (q : Queue)
    → count (named id) (undelivered h rows q)
      ≡ (if settled id q then 0 else count (is_due_named h.now id) rows)
unfolding get_due_outbound_messages
count-undelivered h id rows q =
    count-unsettled id q (get_due_outbound_messages h.now rows)
    ∙ ground (
      arith,
      count-in_order id (filter (λ m. has_come h.now m.deliver_after) rows),
      count-due h.now id rows,
    )

drain_session-Rests :
    (h : Host) (s : Session) (id : String) (rows : List MessageOut) (q : Queue)
    → (if settled id q then 0 else count (is_due_named h.now id) rows) ≡ 0
    → Rests id q (drain_session h s rows q)
unfolding drain_session
drain_session-Rests h s id rows q e =
    attempt_all-Rests h s id (undelivered h rows q) q (count-undelivered h id rows q ∙ e)

drain_session-Turn :
    (h : Host) (s : Session) (id : String) (rows : List MessageOut) (q : Queue)
    → count (is_due_named h.now id) rows ≡ 1
    → settled id q ≡ false
    → Turn id q (drain_session h s rows q)
unfolding drain_session
drain_session-Turn h s id rows q e u =
    attempt_all-Turn h s id (undelivered h rows q) q (count-undelivered h id rows q ∙ rw u e) u

-- A poll of the session: what the world answers then, and the rows of messages_out at that time.
pub record Poll : Type 0 where
  pub host : Host
  pub rows : List MessageOut

unfoldable pub polls : Session → List Poll → Queue → Queue
unfolding drain_session
polls s [] q = q
polls s (p ∷ ps) q = polls s ps (drain_session p.host s p.rows q)

-- The message is due once among the rows.
abbrev pub IsDue : String → Poll → Type 0
IsDue id p = count (is_due_named p.host.now id) p.rows ≡ 1

-- The id is a key of the rows.
abbrev pub IsKey : String → Poll → Type 0
IsKey id p = count (is_due_named p.host.now id) p.rows ≤ 1

module _ (s : Session) (id : String) where
  -- A message that is delivered, or failed for good, is never handed to a channel again: no later poll calls
  -- the adapter for it, and its mark and its attempts stay.
  pub polls_rest : (ps : List Poll) (q : Queue) → settled id q ≡ true → Rests id q (polls s ps q)
  unfolding polls
  polls_rest [] q e = (refl, refl, refl)
  polls_rest (p ∷ ps) q e =
      let next = drain_session p.host s p.rows q in
      let r = drain_session-Rests p.host s id p.rows q (rw e refl) in
      Rests-trans id q next (polls s ps next) r (polls_rest ps next (r.0 ∙ e))

  -- A message that is due at three polls is delivered, or marked as failed, after them, whatever the
  -- platform and the handlers answer. Attempts made before count.
  pub polls_settle :
      (ps : List Poll) (q : Queue)
      → All (IsDue id) ps
      → tried id q < max_delivery_attempts
      → max_delivery_attempts ≤ length ps + tried id q
      → settled id (polls s ps q) ≡ true
  unfolding polls
  polls_settle [] q due few long = absurd (omega arith)
  polls_settle (p ∷ ps) q (d, due) few long =
      let next = drain_session p.host s p.rows q in
      elim (Bool-cases (settled id q)) [
        | inl e ↦ (polls_rest (p ∷ ps) q e).0 ∙ e
        | inr u ↦ elim (drain_session-Turn p.host s id p.rows q d u).1 [
          | inl e ↦ (polls_rest ps next e).0 ∙ e
          | inr (u', more, few') ↦ polls_settle ps next due few' (omega arith)
        ]
      ]

  -- at most three calls, and no more than attempts until the message is settled
  abbrev Bounded : Queue → Type 0
  Bounded q =
      (calls id q ≤ max_delivery_attempts)
      × (settled id q ≡ false → (calls id q ≤ tried id q) × (tried id q < max_delivery_attempts))

  Bounded-Rests : (q q' : Queue) → Bounded q → Rests id q q' → Bounded q'
  Bounded-Rests q q' (a, b) (c, d, e) = (rw e a, (λ u. rw (d, e) (b (sym c ∙ u))))

  Bounded-Turn : (q q' : Queue) → settled id q ≡ false → Bounded q → Turn id q q' → Bounded q'
  Bounded-Turn q q' u (a, b) (few, ends) =
      let (few', bound) = b u in
      (omega arith, (λ u'. elim ends [ inl e ↦ cc | inr (same, more, less) ↦ (omega arith, less) ]))

  polls-Bounded :
      (ps : List Poll) (q : Queue) → All (IsKey id) ps → Bounded q → Bounded (polls s ps q)
  unfolding polls
  polls-Bounded [] q k b = b
  polls-Bounded (p ∷ ps) q (one, k) b =
      let next = drain_session p.host s p.rows q in
      polls-Bounded ps next k (elim (Bool-cases (settled id q)) [
        | inl e ↦ Bounded-Rests q next b (drain_session-Rests p.host s id p.rows q (rw e refl))
        | inr u ↦ elim (Bool-cases (count (is_due_named p.host.now id) p.rows == 0)) [
          | inl z ↦
              Bounded-Rests q next b
                (drain_session-Rests p.host s id p.rows q (rw u (ground arith)))
          | inr n ↦
              Bounded-Turn q next u b (drain_session-Turn p.host s id p.rows q (ground arith) u)
        ]
      ])

  -- However many polls one run of the host makes, the adapter is called for a message three times at most. Ids are
  -- unique among the rows, and the run has not tried the message before: the counts are in memory, and a restart
  -- begins anew.
  pub polls_call_thrice :
      (ps : List Poll) (q : Queue)
      → All (IsKey id) ps
      → calls id q ≡ 0
      → tried id q ≡ 0
      → calls id (polls s ps q) ≤ max_delivery_attempts
  polls_call_thrice ps q k c t =
      (polls-Bounded ps q k (omega arith, (λ u. (omega arith, omega arith)))).0
