-- ===== src/Delivery/Direct.antt =====
-- The rows of messages_out that the host writes itself: `writeOutboundDirect` of session-manager.ts.
use aimclaw.Base.{
  ℕ, ◌+◌, ◌%◌, ◌<◌, max, String, str_eq, ◌≡◌, refl, Bool, false, Option, none, List, [], ◌∷◌, ◌++◌,
  All, any, ◌||◌, ◌==◌, if◌then◌else◌, arith,
}
use aimclaw.Json.{Content}
use aimclaw.Delivery.{MessageOut}

pub record DirectMessage : Type 0 where
  pub id : String
  pub kind : String
  pub platform_id : Option String
  pub channel_type : Option String
  pub thread_id : Option String
  pub content : Content

-- COALESCE(MAX(seq), 0)
unfoldable pub greatest_seq : List MessageOut → ℕ
greatest_seq [] = 0
greatest_seq (m ∷ ms) = max m.seq (greatest_seq ms)

abbrev has_message : String → List MessageOut → Bool
has_message id rows = any (λ r. str_eq r.id id) rows

abbrev direct_row : ℕ → DirectMessage → List MessageOut → MessageOut
direct_row now m rows = record {
  id = m.id;
  seq = greatest_seq rows + 2;
  timestamp = now;
  deliver_after = none;
  kind = m.kind;
  platform_id = m.platform_id;
  channel_type = m.channel_type;
  thread_id = m.thread_id;
  content = m.content;
  in_reply_to = none;
  recurrence = none;
}

-- INSERT OR IGNORE, under PRIMARY KEY (id) and UNIQUE (seq)
unfoldable pub write_outbound_direct : ℕ → DirectMessage → List MessageOut → List MessageOut
unfolding greatest_seq
write_outbound_direct now m rows =
    let row = direct_row now m rows in
    if any (λ r. str_eq r.id row.id || r.seq == row.seq) rows then rows else rows ++ row ∷ []

All-below :
    (bound : ℕ) (rows : List MessageOut) → greatest_seq rows < bound → All (λ r. r.seq < bound) rows
unfolding greatest_seq
All-below bound [] h = tt
All-below bound (m ∷ ms) h = (ground arith, All-below bound ms (ground arith))

no_clash :
    (id : String) (bound : ℕ) (rows : List MessageOut)
    → has_message id rows ≡ false
    → All (λ r. r.seq < bound) rows
    → any (λ r. str_eq r.id id || r.seq == bound) rows ≡ false
no_clash id bound [] e h = refl
no_clash id bound (m ∷ ms) e (p, h) = ground (arith, no_clash id bound ms)

-- A direct write whose id is new always adds its row, with a number above all others. That number is as odd
-- or even as the greatest one was, so after a row of the container it is one of the container's odd numbers.
pub write_outbound_direct_lem :
    (now : ℕ) (m : DirectMessage) (rows : List MessageOut)
    → has_message m.id rows ≡ false
    → (row : MessageOut) × (write_outbound_direct now m rows ≡ rows ++ row ∷ [])
      × (row.id ≡ m.id)
      × All (λ r. r.seq < row.seq) rows
      × (row.seq % 2 ≡ greatest_seq rows % 2)
unfolding write_outbound_direct
write_outbound_direct_lem now m rows e =
    let below = All-below (greatest_seq rows + 2) rows (omega arith) in
    (
      direct_row now m rows,
      rw (no_clash m.id (greatest_seq rows + 2) rows e below) refl,
      refl,
      below,
      omega arith,
    )
