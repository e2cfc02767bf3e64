-- ===== src/Delivery/Messages/Turns.antt =====
-- What one round of a drain makes of a message: its own round, and those of the others.
use aimclaw.Base.{
  ℕ, ◌+◌, ◌≤◌, ◌<◌, String, str_eq, str_eq_refl, str_eq_iff, ◌≡◌, ◌⊎◌, inl, inr, refl, ap, ◌∙◌,
  Bool, true, false, ◌||◌, Option, none, some, List, [], ◌∷◌, ◌++◌, any, count, leb, arith,
  Bool-cases,
}
use aimclaw.Delivery.{
  MessageOut, Outcome, Delivered, Attempt, max_delivery_attempts, is_delivered, mark, attempts_of,
  set_attempts, delete_attempts,
}
use aimclaw.Delivery.Messages.{
  Host, Session, Queue, Sent, attempt, note, note_failure, note_delivered, finishes,
  deliver_message,
}
use aimclaw.Delivery.Messages.Calls.{Adds, deliver_message-Keeps}

abbrev pub calls : String → Queue → ℕ
calls id q = count (λ c. str_eq c.message id) q.sent

abbrev pub settled : String → Queue → Bool
settled id q = is_delivered q.delivered id

abbrev pub tried : String → Queue → ℕ
tried id q = attempts_of id q.attempts

-- The round of the message itself: it is called once at most, and is settled or has one attempt more.
abbrev pub Turn : String → Queue → Queue → Type 0
Turn id q q' =
    (calls id q' ≤ calls id q + 1)
    × ((settled id q' ≡ true)
        ⊎ ((settled id q' ≡ false)
            × (tried id q' ≡ tried id q + 1)
            × (tried id q' < max_delivery_attempts)))

-- The round of another message.
abbrev pub Rests : String → Queue → Queue → Type 0
Rests id q q' =
    (settled id q' ≡ settled id q) × (tried id q' ≡ tried id q) × (calls id q' ≡ calls id q)

any-concat :
    (p : Delivered → Bool) (rows : List Delivered) (d : Delivered)
    → any p (rows ++ d ∷ []) ≡ (any p rows || p d)
any-concat p [] d = ground arith
any-concat p (r ∷ rows) d = ground (arith, any-concat p rows d)

is_delivered-mark :
    (id k : String) (p : Option String) (o : Outcome) (rows : List Delivered)
    → is_delivered (mark id p o rows) k ≡ (is_delivered rows k || str_eq id k)
unfolding mark
is_delivered-mark id k p o rows = elim (Bool-cases (is_delivered rows id)) [
  | inl e ↦ elim (Bool-cases (str_eq id k)) [
    | inl same ↦
        let eq : id ≡ k = (str_eq_iff id k).0 same in
        rw e (ground (arith, ap (is_delivered rows) eq))
    | inr other ↦ rw e (ground arith)
  ]
  | inr e ↦ rw e (any-concat (λ d. str_eq d.message_out_id k) rows _)
]

attempts_of-delete :
    (id k : String) (tries : List Attempt)
    → str_eq id k ≡ false
    → attempts_of k (delete_attempts id tries) ≡ attempts_of k tries
attempts_of-delete id k [] e = refl
attempts_of-delete id k (a ∷ tries) e =
    ground (arith, attempts_of-delete id k tries e, str_eq_iff a.message id, str_eq_iff a.message k)

attempts_of-set :
    (id : String) (n : ℕ) (tries : List Attempt) → attempts_of id (set_attempts id n tries) ≡ n
attempts_of-set id n tries = rw (str_eq_refl id) refl

note_failure-Turn :
    (msg : MessageOut) (q : Queue) → settled msg.id q ≡ false → Turn msg.id q (note_failure msg q)
unfolding note_failure
note_failure-Turn msg q u = elim (Bool-cases (leb max_delivery_attempts (tried msg.id q + 1))) [
  | inl e ↦ rw e (
    omega arith,
    inl (
        is_delivered-mark msg.id msg.id none Outcome.failed q.delivered
        ∙ ground (arith, str_eq_refl msg.id)),
  )
  | inr e ↦ rw e (
    omega arith,
    inr (
      u,
      attempts_of-set msg.id (tried msg.id q + 1) q.attempts,
      rw (attempts_of-set msg.id (tried msg.id q + 1) q.attempts) (ground arith),
    ),
  )
]

attempts_of-set_other :
    (id k : String) (n : ℕ) (tries : List Attempt)
    → str_eq id k ≡ false
    → attempts_of k (set_attempts id n tries) ≡ attempts_of k tries
attempts_of-set_other id k n tries e = rw e (attempts_of-delete id k tries e)

-- A step that only writes about another message.
module _ (id : String) (msg : MessageOut) (q : Queue) (other : str_eq msg.id id ≡ false) where
  settled_other :
      (p : Option String) (o : Outcome)
      → is_delivered (mark msg.id p o q.delivered) id ≡ settled id q
  settled_other p o = is_delivered-mark msg.id id p o q.delivered ∙ ground arith

  note_failure-Rests : Rests id q (note_failure msg q)
  unfolding note_failure
  note_failure-Rests = elim (Bool-cases (leb max_delivery_attempts (tried msg.id q + 1))) [
    | inl e ↦
        rw e
          (settled_other none Outcome.failed, attempts_of-delete msg.id id q.attempts other, refl)
    | inr e ↦ rw e (refl, attempts_of-set_other msg.id id _ q.attempts other, refl)
  ]

  note_delivered-Rests : (p : Option String) → Rests id q (note_delivered msg p q)
  note_delivered-Rests p =
      (settled_other p Outcome.delivered, attempts_of-delete msg.id id q.attempts other, refl)

pub Rests-trans :
    (id : String) (q q' q'' : Queue) → Rests id q q' → Rests id q' q'' → Rests id q q''
Rests-trans id q q' q'' (a, b, c) (a', b', c') = (a' ∙ a, b' ∙ b, c' ∙ c)

note-Rests :
    (h : Host) (id : String) (msg : MessageOut) (q : Queue) (r : Option (Option String))
    → str_eq msg.id id ≡ false
    → Rests id q (note h msg q r)
note-Rests h id msg q none e = note_failure-Rests id msg q e
note-Rests h id msg q (some p) e = elim (Bool-cases (finishes h msg)) [
  | inl f ↦ rw f (note_delivered-Rests id msg q e p)
  | inr f ↦ rw f (
      Rests-trans id q (note_delivered msg p q) (note_failure msg (note_delivered msg p q))
        (note_delivered-Rests id msg q e p) (note_failure-Rests id msg (note_delivered msg p q) e))
]

-- A message that is delivered stays so, also when the end of its round throws.
settled-note_failure :
    (msg : MessageOut) (q : Queue)
    → settled msg.id q ≡ true
    → settled msg.id (note_failure msg q) ≡ true
unfolding note_failure
settled-note_failure msg q e = elim (Bool-cases (leb max_delivery_attempts (tried msg.id q + 1))) [
  | inl f ↦ rw f (is_delivered-mark msg.id msg.id none Outcome.failed q.delivered ∙ ground arith)
  | inr f ↦ rw f e
]

settled-note_delivered :
    (msg : MessageOut) (p : Option String) (q : Queue)
    → settled msg.id (note_delivered msg p q) ≡ true
settled-note_delivered msg p q =
    is_delivered-mark msg.id msg.id p Outcome.delivered q.delivered
    ∙ ground (arith, str_eq_refl msg.id)

calls-note :
    (h : Host) (id : String) (msg : MessageOut) (q : Queue) (r : Option (Option String))
    → calls id (note h msg q r) ≡ calls id q
unfolding note_failure
calls-note h id msg q none = ground arith
calls-note h id msg q (some p) = ground arith

note-Turn :
    (h : Host) (msg : MessageOut) (q : Queue) (r : Option (Option String))
    → settled msg.id q ≡ false
    → Turn msg.id q (note h msg q r)
note-Turn h msg q none u = note_failure-Turn msg q u
note-Turn h msg q (some p) u = (
  rw (calls-note h msg.id msg q (some p)) (omega arith),
  inl (elim (Bool-cases (finishes h msg)) [
    | inl f ↦ rw f (settled-note_delivered msg p q)
    | inr f ↦
        rw f (settled-note_failure msg (note_delivered msg p q) (settled-note_delivered msg p q))
  ]),
)

count-append : (p : Sent → Bool) (xs ys : List Sent) → count p (xs ++ ys) ≡ count p xs + count p ys
count-append p [] ys = omega arith
count-append p (x ∷ xs) ys = ground (arith, count-append p xs ys)

calls-Adds :
    (h : Host) (s : Session) (msg : MessageOut) (q q' : Queue)
    → Adds h s msg q q'
    → (calls msg.id q' ≤ calls msg.id q + 1)
      × ((id : String) → str_eq msg.id id ≡ false → calls id q' ≡ calls id q)
calls-Adds h s msg q q' (inl e) = (rw e (omega arith), (λ id other. rw e refl))
calls-Adds h s msg q q' (inr (c, e, (same, at))) = (
  rw (e, count-append (λ c. str_eq c.message msg.id) q.sent (c ∷ [])) (ground arith),
  (λ id other.
      rw (e, count-append (λ c. str_eq c.message id) q.sent (c ∷ []), same, other) (omega arith)),
)

pub attempt-Rests :
    (h : Host) (s : Session) (id : String) (msg : MessageOut) (q : Queue)
    → str_eq msg.id id ≡ false
    → Rests id q (attempt h s msg q)
unfolding attempt
attempt-Rests h s id msg q e =
    let a = deliver_message h s msg q in
    let (d, n, adds) = deliver_message-Keeps h s msg q in
    Rests-trans id q a.queue (note h msg a.queue a.result)
      (
        ap (λ t. is_delivered t id) d,
        ap (attempts_of id) n,
        (calls-Adds h s msg q a.queue adds).1 id e,
      )
      (note-Rests h id msg a.queue a.result e)

pub attempt-Turn :
    (h : Host) (s : Session) (msg : MessageOut) (q : Queue)
    → settled msg.id q ≡ false
    → Turn msg.id q (attempt h s msg q)
unfolding attempt
attempt-Turn h s msg q u =
    let a = deliver_message h s msg q in
    let (d, n, adds) = deliver_message-Keeps h s msg q in
    let still : settled msg.id a.queue ≡ false = ap (λ t. is_delivered t msg.id) d ∙ u in
    let same : tried msg.id a.queue ≡ tried msg.id q = ap (attempts_of msg.id) n in
    let few = (calls-Adds h s msg q a.queue adds).0 in
    let (more, ends) = note-Turn h msg a.queue a.result still in
    let exact = calls-note h msg.id msg a.queue a.result in
    (
      rw exact few,
      elim ends [
        | inl e ↦ inl e
        | inr (u', next, bound) ↦ inr (u', next ∙ ap (λ t. t + 1) same, bound)
      ],
    )
