-- ===== src/Runner/Outbox/Lookups.antt =====
-- The number as the name that the agent has for a message, while both sides go on writing.
use aimclaw.Base.{
  ℕ, ◌%◌, ◌<◌, str_eq, ◌≡◌, refl, Bool, true, false, Option, none, some, List, [], ◌∷◌, ◌++◌, All,
  find, if◌then◌else◌, arith, Option-cases, inl, inr,
}
use aimclaw.SessionDb.{MessageIn, NewMessage, insert_message, or_default}
use aimclaw.SessionDb.Seq.{IsWellFormed, HasHostSeq, insert_message-IsWellFormed}
use aimclaw.Delivery.{MessageOut, Delivered}
use aimclaw.Delivery.Direct.{DirectMessage, write_outbound_direct}
use aimclaw.Runner.Outbox.{
  WriteMessageOut, out_row, write_message_out, has_seq_in, has_seq_out, get_message_id_by_seq,
  get_routing_by_seq, routing_out, delivered_or,
}
use aimclaw.Runner.Outbox.Numbers.{write_message_out_lem}

pub record Databases : Type 0 where
  pub inbound : List MessageIn
  pub outbound : List MessageOut

-- What either side adds
pub data Write : Type 0 where
  insert : NewMessage → Write
  direct : ℕ → DirectMessage → Write
  send : ℕ → WriteMessageOut → Write

abbrev sent_rows : List MessageOut → Option (ℕ × List MessageOut) → List MessageOut
sent_rows rows none = rows
sent_rows rows (some (seq, rows')) = rows'

-- A write that throws leaves the tables.
unfoldable pub write : Write → Databases → Databases
unfolding insert_message write_outbound_direct write_message_out
write (insert m) db = record db { inbound = or_default (insert_message db.inbound m) db.inbound }
write (direct now m) db = record db { outbound = write_outbound_direct now m db.outbound }
write (send now m) db = record db {
  outbound = sent_rows db.outbound (write_message_out now m db.outbound db.inbound);
}

unfoldable pub write_all : List Write → Databases → Databases
unfolding write
write_all [] db = db
write_all (w ∷ ws) db = write_all ws (write w db)

module _ (seq : ℕ) where
  find-append :
      (rows more : List MessageOut) (m : MessageOut)
      → find (has_seq_out seq) rows ≡ some m
      → find (has_seq_out seq) (rows ++ more) ≡ some m
  find-append [] more m e = cc
  find-append (r ∷ rows) more m e = ground (arith, find-append rows more m)

  find_last :
      (rows : List MessageOut) (m : MessageOut)
      → m.seq ≡ seq
      → All (λ r. r.seq < seq) rows
      → find (has_seq_out seq) (rows ++ m ∷ []) ≡ some m
  find_last [] m e h = ground arith
  find_last (r ∷ rows) m e (p, h) = ground (arith, find_last rows m e h)

  none_inbound :
      (rows : List MessageIn)
      → seq % 2 ≡ 1
      → All HasHostSeq rows
      → find (has_seq_in seq) rows ≡ none
  none_inbound [] odd h = refl
  none_inbound (r ∷ rows) odd ((even, p), h) = ground (arith, none_inbound rows odd h)

  -- An odd number that names a row of messages_out does so after another write.
  Names : MessageOut → Databases → Type 0
  Names m db = IsWellFormed db.inbound × (find (has_seq_out seq) db.outbound ≡ some m)

  find-unless :
      (b : Bool) (rows more : List MessageOut) (m : MessageOut)
      → find (has_seq_out seq) rows ≡ some m
      → find (has_seq_out seq) (if b then rows else rows ++ more) ≡ some m
  find-unless true rows more m e = e
  find-unless false rows more m e = find-append rows more m e

  find-sent :
      (b : Bool) (n : ℕ) (rows more : List MessageOut) (m : MessageOut)
      → find (has_seq_out seq) rows ≡ some m
      → find (has_seq_out seq) (sent_rows rows (if b then none else some (n, rows ++ more)))
        ≡ some m
  find-sent true n rows more m e = e
  find-sent false n rows more m e = find-append rows more m e

  write-Names : (w : Write) (m : MessageOut) (db : Databases) → Names m db → Names m (write w db)
  unfolding write Names write_outbound_direct write_message_out
  write-Names (insert x) m db (h, e) = elim (Option-cases (insert_message db.inbound x)) [
    | inl f ↦ rw f (h, e)
    | inr (rows, f) ↦ rw f (insert_message-IsWellFormed db.inbound rows x h f, e)
  ]
  write-Names (direct now d) m db (h, e) = (h, find-unless _ db.outbound _ m e)
  write-Names (send now x) m db (h, e) = (h, find-sent _ _ db.outbound _ m e)

  write_all-Names :
      (ws : List Write) (m : MessageOut) (db : Databases) → Names m db → Names m (write_all ws db)
  unfolding write_all
  write_all-Names [] m db h = h
  write_all-Names (w ∷ ws) m db h = write_all-Names ws m (write w db) (write-Names w m db h)

  Names-lookups :
      (m : MessageOut) (db : Databases) (delivered : List Delivered)
      → seq % 2 ≡ 1
      → Names m db
      → (get_routing_by_seq seq db.inbound db.outbound ≡ some (routing_out m))
        × (get_message_id_by_seq seq db.inbound db.outbound delivered
            ≡ some (delivered_or m.id (find (λ d. str_eq d.message_out_id m.id) delivered)))
  unfolding get_routing_by_seq get_message_id_by_seq Names
  Names-lookups m db delivered odd ((apart, even), e) =
      let absent = none_inbound db.inbound odd even in
      (rw (absent, e, get_routing_by_seq) refl, rw (absent, e, get_message_id_by_seq) refl)

-- What the number finds in the tables, for the message of that send
abbrev pub Finds : ℕ → MessageOut → List Delivered → Databases → Type 0
Finds seq m delivered db =
    (get_routing_by_seq seq db.inbound db.outbound ≡ some (routing_out m))
    × (get_message_id_by_seq seq db.inbound db.outbound delivered
        ≡ some (delivered_or m.id (find (λ d. str_eq d.message_out_id m.id) delivered)))

-- The number that a send returns finds that message, under its routing and the id that the platform gave it,
-- however many messages the host and the container add afterwards, if the host's rows have its even numbers.
pub write_message_out-Finds :
    (now : ℕ) (msg : WriteMessageOut) (db : Databases) (seq : ℕ) (rows : List MessageOut)
    (ws : List Write) (delivered : List Delivered)
    → IsWellFormed db.inbound
    → write_message_out now msg db.outbound db.inbound ≡ some (seq, rows)
    → Finds seq (out_row now seq msg) delivered (write_all ws (record db { outbound = rows }))
unfolding Names
write_message_out-Finds now msg db seq rows ws delivered h e =
    let (taken, sent) = write_message_out_lem now msg db.outbound db.inbound in
    elim sent [
      | inl t ↦ cc (taken.1 t, e)
      | inr (n, f, odd, below, d) ↦
          let same : n ≡ seq = cc (e, f) in
          let all : db.outbound ++ out_row now n msg ∷ [] ≡ rows = cc (e, f) in
          let last = find_last n db.outbound (out_row now n msg) refl below in
          rw (← same, ← all)
            (Names-lookups n (out_row now n msg) _ delivered odd
              (write_all-Names n ws (out_row now n msg) _ (h, last)))
    ]
