-- ===== src/Runner/Inbox.antt =====
-- container/agent-runner/src/db/messages-in.ts, and clearStaleProcessingAcks of connection.ts.
pub mod Pickup
pub mod Calls
pub mod Claims
pub mod Outcomes
use Prim.Native.String.{◌++◌}
use aimclaw.Base.{
  ℕ, zero, suc, String, str_eq, is_text, Bool, true, false, not, ◌&&◌, ◌||◌, Option, none, some,
  List, [], ◌∷◌, any, filter, find, leb, if◌then◌else◌,
}
use mathlib.Core.List
use aimclaw.Text.{is_like}
use aimclaw.Json.{Content}
use aimclaw.SessionDb.{
  MessageIn, ProcessingAck, AckStatus, Stamp, is_pending, has_come, has_id, is_processing,
}

-- ORDER BY seq DESC
unfoldable pub insert_newest_first : MessageIn → List MessageIn → List MessageIn
insert_newest_first m [] = m ∷ []
insert_newest_first m (n ∷ ns) =
    let later = insert_newest_first m ns in if leb n.seq m.seq then m ∷ (n ∷ ns) else n ∷ later

unfoldable pub newest_first : List MessageIn → List MessageIn
unfolding insert_newest_first
newest_first [] = []
newest_first (m ∷ ms) = insert_newest_first m (newest_first ms)

-- LIMIT
abbrev pub take {ℓ} : {A : Type ℓ} → ℕ → List A → List A
take zero xs = []
take (suc n) [] = []
take (suc n) (x ∷ xs) = x ∷ take n xs

abbrev pub is_acked : List ProcessingAck → String → Bool
is_acked acks id = any (λ a. str_eq a.message_id id) acks

-- An older inbound.db has no column on_wake, and every row passes.
abbrev pub passes_wake : Bool → Bool → MessageIn → Bool
passes_wake has_on_wake is_first_poll m = not has_on_wake || (not m.on_wake || is_first_poll)

abbrev pub is_up : ℕ → Bool → Bool → MessageIn → Bool
is_up now has_on_wake is_first_poll m =
    is_pending m.status && (has_come now m.process_after && passes_wake has_on_wake is_first_poll m)

module _ (now : ℕ) (has_on_wake is_first_poll : Bool) (max_messages : ℕ) where
  unfoldable pub get_pending_messages : List MessageIn → List ProcessingAck → List MessageIn
  unfolding newest_first
  get_pending_messages rows acks = List.reverse (
      filter (λ m. not (is_acked acks m.id))
        (take max_messages (newest_first (filter (is_up now has_on_wake is_first_poll) rows))))

-- INSERT OR REPLACE, under PRIMARY KEY (message_id)
unfoldable pub replace_ack : ProcessingAck → List ProcessingAck → List ProcessingAck
replace_ack a acks = List.◌++◌ (filter (λ b. not (str_eq b.message_id a.message_id)) acks) (a ∷ [])

-- The clock, read for each row
module _ (clock : String → Stamp) where
  unfoldable pub ack_with : AckStatus → String → List ProcessingAck → List ProcessingAck
  unfolding replace_ack
  ack_with status id acks =
      replace_ack (record { message_id = id; status = status; status_changed = clock id }) acks

  unfoldable pub ack_all : AckStatus → List String → List ProcessingAck → List ProcessingAck
  unfolding ack_with
  ack_all status [] acks = acks
  ack_all status (id ∷ ids) acks = ack_all status ids (ack_with status id acks)

  unfoldable pub mark_processing : List String → List ProcessingAck → List ProcessingAck
  unfolding ack_all
  mark_processing ids acks = ack_all AckStatus.processing ids acks

  unfoldable pub mark_completed : List String → List ProcessingAck → List ProcessingAck
  unfolding ack_all
  mark_completed ids acks = ack_all AckStatus.completed ids acks

  unfoldable pub mark_failed : String → List ProcessingAck → List ProcessingAck
  unfolding ack_with
  mark_failed id acks = ack_with AckStatus.failed id acks

pub record Skip : Type 0 where
  pub id : String
  pub reason : String

abbrev pub status_of_skip : String → AckStatus
status_of_skip reason =
    if str_eq reason "error" then AckStatus.script_skip_error else AckStatus.completed

unfoldable pub mark_script_skipped :
    (String → Stamp) → List Skip → List ProcessingAck → List ProcessingAck
unfolding ack_with
mark_script_skipped clock [] acks = acks
mark_script_skipped clock (s ∷ skips) acks =
    mark_script_skipped clock skips (ack_with clock (status_of_skip s.reason) s.id acks)

-- on the start of a container
unfoldable pub clear_stale_processing_acks : List ProcessingAck → List ProcessingAck
clear_stale_processing_acks acks = filter (λ a. not (is_processing a)) acks

unfoldable pub get_message_in : String → List MessageIn → Option MessageIn
get_message_in id rows = find (has_id id) rows

pub record ReplyRouting : Type 0 where
  pub thread_id : Option String
  pub in_reply_to : String

abbrev routing_of : List MessageIn → Option ReplyRouting
routing_of [] = none
routing_of (m ∷ ms) = some (record { thread_id = m.thread_id; in_reply_to = m.id })

abbrev pub is_from : String → String → MessageIn → Bool
is_from channel_type platform_id m =
    is_text m.channel_type channel_type && is_text m.platform_id platform_id

unfoldable pub get_destination_reply_routing :
    String → String → List MessageIn → Option ReplyRouting
unfolding newest_first
get_destination_reply_routing channel_type platform_id rows =
    routing_of (newest_first (filter (is_from channel_type platform_id) rows))

-- The column holds the printed content.
module _ (column : Content → String) where
  abbrev pub is_response : String → MessageIn → Bool
  is_response question_id m =
      is_pending m.status
      && is_like ("%\"questionId\":\"" ++ (question_id ++ "\"%")) (column m.content)

  unfoldable pub find_question_response :
      String → List MessageIn → List ProcessingAck → Option MessageIn
  unfolding is_like
  find_question_response question_id rows acks = elim (find (is_response question_id) rows) [
    | none ↦ none
    | some response ↦ if is_acked acks response.id then none else some response
  ]
