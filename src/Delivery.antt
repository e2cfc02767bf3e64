-- ===== src/Delivery.antt =====
-- The delivery of outbound messages: delivery.ts, with the statements on messages_out and delivered of
-- db/session-db.ts. Questions has the part of `deliverMessage` that keeps the questions.
pub mod Questions
pub mod World
pub mod Messages
pub mod Inflight
pub mod Direct
use aimclaw.Base.{
  ℕ, zero, suc, ◌+◌, String, str_eq, is_text, Bool, true, false, not, ◌&&◌, ◌||◌, Option, none,
  some, List, [], ◌∷◌, ◌++◌, any, filter, find, leb, ltb, ◌==◌, if◌then◌else◌,
}
use aimclaw.Json.{Content}
use aimclaw.SessionDb.{Stamp, has_come}

abbrev pub max_delivery_attempts : ℕ
max_delivery_attempts = 3

pub record MessageOut : Type 0 where
  pub id : String
  pub seq : ℕ
  pub timestamp : ℕ
  pub deliver_after : Option Stamp
  pub kind : String
  pub platform_id : Option String
  pub channel_type : Option String
  pub thread_id : Option String
  pub content : Content
  pub in_reply_to : Option String
  pub recurrence : Option String

pub data Outcome : Type 0 where
  delivered failed : Outcome

pub record Delivered : Type 0 where
  pub message_out_id : String
  pub platform_message_id : Option String
  pub status : Outcome

-- ORDER BY timestamp ASC, seq ASC
abbrev precedes : MessageOut → MessageOut → Bool
precedes m n = ltb m.timestamp n.timestamp || (m.timestamp == n.timestamp && leb m.seq n.seq)

insert_in_order : MessageOut → List MessageOut → List MessageOut
insert_in_order m [] = m ∷ []
insert_in_order m (n ∷ ns) = if precedes m n then m ∷ n ∷ ns else n ∷ insert_in_order m ns

in_order : List MessageOut → List MessageOut
in_order [] = []
in_order (m ∷ ms) = insert_in_order m (in_order ms)

unfoldable pub get_due_outbound_messages : ℕ → List MessageOut → List MessageOut
unfolding insert_in_order in_order
get_due_outbound_messages now rows = in_order (filter (λ m. has_come now m.deliver_after) rows)

abbrev pub is_delivered : List Delivered → String → Bool
is_delivered rows id = any (λ d. str_eq d.message_out_id id) rows

-- INSERT OR IGNORE INTO delivered
unfoldable pub mark : String → Option String → Outcome → List Delivered → List Delivered
mark id platform_id status rows =
    if is_delivered rows id
    then rows
    else rows
      ++ (record { message_out_id = id; platform_message_id = platform_id; status = status }) ∷ []

abbrev pub mark_delivered : String → Option String → List Delivered → List Delivered
mark_delivered id platform_id rows = mark id platform_id delivered rows

abbrev pub mark_delivery_failed : String → List Delivered → List Delivered
mark_delivery_failed id rows = mark id none failed rows

-- An entry of `deliveryAttempts`, which lives in memory.
pub record Attempt : Type 0 where
  pub message : String
  pub attempts : ℕ

abbrev pub attempts_in : Option Attempt → ℕ
attempts_in none = 0
attempts_in (some a) = a.attempts

abbrev pub attempts_of : String → List Attempt → ℕ
attempts_of id tries = attempts_in (find (λ a. str_eq a.message id) tries)

abbrev pub delete_attempts : String → List Attempt → List Attempt
delete_attempts id tries = filter (λ a. not (str_eq a.message id)) tries

abbrev pub set_attempts : String → ℕ → List Attempt → List Attempt
set_attempts id n tries = record { message = id; attempts = n } ∷ delete_attempts id tries
