-- ===== src/SessionDb.antt =====
-- The per-session databases: db/session-db.ts over the tables of db/schema.ts.
-- A table is the list of its rows in the order of insertion. A statement that a constraint
-- refuses is `none`: the driver throws.
pub mod Seq
pub mod Acks
use aimclaw.Base.{
  ℕ, ◌+◌, ◌-◌, ◌*◌, ◌/◌, ◌%◌, max, String, str_eq, Bool, true, false, not, ◌&&◌, ◌||◌, Option, none,
  some, List, [], ◌∷◌, ◌++◌, leb, ltb, ◌==◌, if◌then◌else◌, any, filter, count, find, update_where,
}
use aimclaw.Json.{Content}

pub data Status : Type 0 where
  pending processing completed failed cancelled paused : Status

-- A time column. The text is kept as the instant in milliseconds that it denotes, or as invalid.
pub data Stamp : Type 0 where
  invalid : Stamp
  at : ℕ → Stamp

pub record MessageIn : Type 0 where
  pub id : String
  pub seq : ℕ
  pub kind : String
  pub timestamp : ℕ
  pub status : Status
  pub process_after : Option Stamp
  pub recurrence : Option String
  pub series_id : Option String
  pub tries : ℕ
  pub trigger : Bool
  pub platform_id : Option String
  pub channel_type : Option String
  pub thread_id : Option String
  pub content : Content
  pub source_session_id : Option String
  pub on_wake : Bool

-- The argument of `insertMessage`; the optional fields may be left out.
pub record NewMessage : Type 0 where
  pub id : String
  pub kind : String
  pub timestamp : ℕ
  pub platform_id : Option String
  pub channel_type : Option String
  pub thread_id : Option String
  pub content : Content
  pub process_after : Option Stamp
  pub recurrence : Option String
  pub trigger : Option Bool
  pub source_session_id : Option String
  pub on_wake : Option Bool

pub data AckStatus : Type 0 where
  processing completed failed script_skip_error : AckStatus

pub record ProcessingAck : Type 0 where
  pub message_id : String
  pub status : AckStatus
  pub status_changed : Stamp

abbrev pub is_pending : Status → Bool
is_pending pending = true
is_pending _ = false

-- status IN ('completed', 'failed')
abbrev pub is_terminal : Status → Bool
is_terminal Status.completed = true
is_terminal Status.failed = true
is_terminal _ = false

abbrev pub has_id : String → MessageIn → Bool
has_id k m = str_eq m.id k

unfoldable pub max_seq : List MessageIn → ℕ
max_seq [] = 0
max_seq (m ∷ ms) = max m.seq (max_seq ms)

unfoldable pub next_even_seq : List MessageIn → ℕ
unfolding max_seq
next_even_seq rows = let top = max_seq rows in if ltb top 2 then 2 else (top + 2 - top % 2)

-- INSERT INTO messages_in, under PRIMARY KEY (id) and UNIQUE (seq)
unfoldable pub insert_row : MessageIn → List MessageIn → Option (List MessageIn)
insert_row row rows =
    if any (λ m. str_eq m.id row.id || m.seq == row.seq) rows then none else some (rows ++ row ∷ [])

abbrev pub or_default {ℓ} : {A : Type ℓ} → Option A → A → A
or_default none d = d
or_default (some a) d = a

abbrev pub new_row : List MessageIn → NewMessage → MessageIn
new_row rows message = record {
  id = message.id;
  seq = next_even_seq rows;
  kind = message.kind;
  timestamp = message.timestamp;
  status = pending;
  process_after = message.process_after;
  recurrence = message.recurrence;
  series_id = some message.id;
  tries = 0;
  trigger = or_default message.trigger true;
  platform_id = message.platform_id;
  channel_type = message.channel_type;
  thread_id = message.thread_id;
  content = message.content;
  source_session_id = message.source_session_id;
  on_wake = or_default message.on_wake false;
}

unfoldable pub insert_message : List MessageIn → NewMessage → Option (List MessageIn)
unfolding insert_row next_even_seq
insert_message rows message = insert_row (new_row rows message) rows

-- `datetime` drops the milliseconds, and is NULL on an invalid text.
abbrev pub has_come : ℕ → Option Stamp → Bool
has_come now none = true
has_come now (some invalid) = false
has_come now (some (at ms)) = leb (ms / 1000) (now / 1000)

abbrev pub is_due : ℕ → MessageIn → Bool
is_due now m = is_pending m.status && (m.trigger && has_come now m.process_after)

unfoldable pub count_due_messages : ℕ → List MessageIn → ℕ
count_due_messages now rows = count (is_due now) rows

unfoldable pub mark_message_failed : String → List MessageIn → List MessageIn
mark_message_failed id rows =
    update_where (has_id id) (λ m. record m { status = Status.failed }) rows

unfoldable pub retry_with_backoff : ℕ → String → ℕ → List MessageIn → List MessageIn
retry_with_backoff now id backoff_sec rows =
    update_where (has_id id)
      (λ m. record m { tries = m.tries + 1; process_after = some (at (now + backoff_sec * 1000)) })
      rows

-- with the status 'pending', the only one that it is called with
unfoldable pub get_message_for_retry : String → List MessageIn → Option MessageIn
get_message_for_retry id rows = find (λ m. has_id id m && is_pending m.status) rows

abbrev pub is_finished : AckStatus → Bool
is_finished AckStatus.processing = false
is_finished _ = true

abbrev pub is_processing : ProcessingAck → Bool
is_processing a = not (is_finished a.status)

-- the outcome that the two statements of `syncProcessingAcks` write
abbrev pub outcome : AckStatus → Status
outcome script_skip_error = Status.failed
outcome _ = Status.completed

abbrev pub settle : AckStatus → MessageIn → MessageIn
settle s m = record m { status = outcome s }

unfoldable pub apply_acks : List ProcessingAck → List MessageIn → List MessageIn
apply_acks [] rows = rows
apply_acks (a ∷ acks) rows =
    apply_acks acks (
      update_where (λ m. has_id a.message_id m && not (is_terminal m.status)) (settle a.status)
        rows)

unfoldable pub sync_processing_acks : List MessageIn → List ProcessingAck → List MessageIn
unfolding apply_acks
sync_processing_acks rows acks = apply_acks (filter (λ a. is_finished a.status) acks) rows

unfoldable pub get_processing_claims : List ProcessingAck → List ProcessingAck
get_processing_claims acks = filter is_processing acks

unfoldable pub delete_orphan_processing_claims : List ProcessingAck → List ProcessingAck × ℕ
delete_orphan_processing_claims acks =
    (filter (λ a. not (is_processing a)) acks, count is_processing acks)
