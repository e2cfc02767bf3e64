-- ===== src/Runner/Outbox/Numbers.antt =====
-- The numbers of messages_out.
use aimclaw.Base.{
  ℕ, ◌%◌, ◌<◌, String, str_eq, ◌≡◌, ◌↔◌, ◌⊎◌, refl, Bool, true, ◌||◌, none, some, List, [], ◌∷◌,
  ◌++◌, All, any, ◌==◌, arith, Bool-cases, inl, inr,
}
use aimclaw.SessionDb.{MessageIn, max_seq}
use aimclaw.Delivery.{MessageOut}
use aimclaw.Delivery.Direct.{greatest_seq}
use aimclaw.Runner.Outbox.{WriteMessageOut, next_odd_seq, out_row, write_message_out}

next_odd_seq-odd :
    (outbound : List MessageOut) (inbound : List MessageIn) → next_odd_seq outbound inbound % 2 ≡ 1
unfolding next_odd_seq
next_odd_seq-odd outbound inbound = ground arith

next_odd_seq-gt :
    (outbound : List MessageOut) (inbound : List MessageIn)
    → (greatest_seq outbound < next_odd_seq outbound inbound)
      × (max_seq inbound < next_odd_seq outbound inbound)
unfolding next_odd_seq
next_odd_seq-gt outbound inbound = ground arith

All-out : (rows : List MessageOut) (n : ℕ) → greatest_seq rows < n → All (λ r. r.seq < n) rows
unfolding greatest_seq
All-out [] n h = tt
All-out (r ∷ rows) n h = (omega arith, All-out rows n (omega arith))

All-in : (rows : List MessageIn) (n : ℕ) → max_seq rows < n → All (λ r. r.seq < n) rows
unfolding max_seq
All-in [] n h = tt
All-in (r ∷ rows) n h = (omega arith, All-in rows n (omega arith))

abbrev pub has_message : String → List MessageOut → Bool
has_message id rows = any (λ r. str_eq r.id id) rows

no_clash :
    (id : String) (seq : ℕ) (rows : List MessageOut)
    → All (λ r. r.seq < seq) rows
    → any (λ r. str_eq r.id id || r.seq == seq) rows ≡ has_message id rows
no_clash id seq [] h = refl
no_clash id seq (r ∷ rows) (p, h) = ground (arith, no_clash id seq rows h)

module _ (now : ℕ) (msg : WriteMessageOut) (outbound : List MessageOut)
    (inbound : List MessageIn) where
  next : ℕ
  next = next_odd_seq outbound inbound

  -- The insert throws exactly when the id is taken. Else it adds the message with an odd number above all
  -- numbers of both databases.
  pub write_message_out_lem :
      ((write_message_out now msg outbound inbound ≡ none) ↔ (has_message msg.id outbound ≡ true))
      × ((has_message msg.id outbound ≡ true)
          ⊎ ((seq : ℕ) × (write_message_out now msg outbound inbound
                ≡ some (seq, outbound ++ out_row now seq msg ∷ []))
              × (seq % 2 ≡ 1)
              × All (λ r. r.seq < seq) outbound
              × All (λ r. r.seq < seq) inbound))
  unfolding write_message_out
  write_message_out_lem =
      let (out, inb) = next_odd_seq-gt outbound inbound in
      let free =
        no_clash msg.id (next_odd_seq outbound inbound) outbound
          (All-out outbound (next_odd_seq outbound inbound) out) in
      (
        ground (arith, free),
        elim (Bool-cases (has_message msg.id outbound)) [
          | inl e ↦ inl e
          | inr e ↦ inr (
            next_odd_seq outbound inbound,
            rw (free, e) refl,
            next_odd_seq-odd outbound inbound,
            All-out outbound _ out,
            All-in inbound _ inb,
          )
        ],
      )
