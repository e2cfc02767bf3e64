-- ===== src/Tests/Runner.antt =====
-- The container's side of the session databases.
use aimclaw.Base.{
  latest, str_eq, ℕ, String, ◌≡◌, refl, true, false, none, some, List, [], ◌∷◌, All, any, filter,
  not, arith, ne_of_str_eq,
}
use aimclaw.Json.{str, obj, end, field, Content}
use aimclaw.SessionDb.{MessageIn, NewMessage, ProcessingAck, AckStatus, Status, Stamp, at}
use aimclaw.Delivery.{Delivered, Outcome}
use aimclaw.Runner.Inbox.{
  get_pending_messages, is_acked, is_up, mark_processing, clear_stale_processing_acks,
  find_question_response,
}
use aimclaw.Runner.Inbox.Pickup.{get_pending_messages-eq}
use aimclaw.Runner.Inbox.Calls.{AckCall, after_calls}
use aimclaw.Runner.Inbox.Claims.{ids_of, claims_hide_until_restart}
use aimclaw.Runner.Outbox.{WriteMessageOut, write_message_out, out_row}
use aimclaw.Runner.Outbox.Lookups.{Databases, Write, write_all, Finds, write_message_out-Finds}

abbrev incoming : String → ℕ → Status → Content → MessageIn
incoming id seq status content = record {
  id = id;
  seq = seq;
  kind = "chat";
  timestamp = 1000;
  status = status;
  process_after = none;
  recurrence = none;
  series_id = some id;
  tries = 0;
  trigger = true;
  platform_id = some "c1";
  channel_type = some "slack";
  thread_id = none;
  content = content;
  source_session_id = none;
  on_wake = false;
}

abbrev answer : Content
answer = Content.json (obj (field "_nanoclawPlatformMessageId" (str "171.5") end))

abbrev rows : List MessageIn
rows =
    incoming "m1" 2 Status.pending answer
    ∷ (incoming "m2" 4 Status.completed answer
        ∷ (incoming "m3" 6 Status.pending (Content.raw "hi")
            ∷ (incoming "m4" 8 Status.pending answer ∷ [])))

abbrev clock : String → Stamp
clock id = at 5000

abbrev acks : List ProcessingAck
acks =
    record { message_id = "m3"; status = AckStatus.processing; status_changed = at 100 }
    ∷ (record { message_id = "m2"; status = AckStatus.completed; status_changed = at 90 } ∷ [])

pending_test : ids_of (get_pending_messages 9000 true false 2 rows acks) ≡ "m4" ∷ []
unfolding get_pending_messages
pending_test = refl

get_pending_messages-eq_example :
    get_pending_messages 9000 true false 2 rows acks
    ≡ filter (λ m. not (is_acked acks m.id)) (latest 2 (filter (is_up 9000 true false) rows))
get_pending_messages-eq_example = get_pending_messages-eq 9000 true false 2 rows acks (omega arith)

abbrev calls : List AckCall
calls = AckCall.claim clock ("m4" ∷ []) ∷ (AckCall.fail clock "m4" ∷ [])

claims_hide_until_restart_example :
    All
      (λ (m : MessageIn). any (λ id. str_eq id m.id) ("m1" ∷ []) ≡ false)
      (get_pending_messages 9500 true false 10 rows
        (after_calls calls (mark_processing clock ("m1" ∷ []) acks)))
    × (get_pending_messages 9000 true true 10 rows (
          clear_stale_processing_acks (
            mark_processing clock
              (ids_of
                (get_pending_messages 9000 true true 10 rows (clear_stale_processing_acks acks)))
              (clear_stale_processing_acks acks)))
        ≡ get_pending_messages 9000 true true 10 rows (clear_stale_processing_acks acks))
claims_hide_until_restart_example =
    claims_hide_until_restart 9000 true true 10 rows clock acks ("m1" ∷ []) calls 9500 false rows

like_test :
    find_question_response (λ c. "{\"questionId\":\"q-1\",\"v\":1}") "Q-1" rows []
    ≡ some (incoming "m1" 2 Status.pending answer)
unfolding find_question_response
like_test = refl

abbrev reply : WriteMessageOut
reply = record {
  id = "r1";
  in_reply_to = some "m4";
  deliver_after = none;
  recurrence = none;
  kind = "chat";
  platform_id = some "c1";
  channel_type = some "slack";
  thread_id = none;
  content = Content.raw "done";
}

abbrev next_message : NewMessage
next_message = record {
  id = "m5";
  kind = "chat";
  timestamp = 9900;
  platform_id = some "c1";
  channel_type = some "slack";
  thread_id = none;
  content = answer;
  process_after = none;
  recurrence = none;
  trigger = none;
  source_session_id = none;
  on_wake = none;
}

abbrev two_rows : List MessageIn
two_rows = incoming "m1" 2 Status.pending answer ∷ (incoming "m3" 6 Status.pending answer ∷ [])

abbrev db : Databases
db = record { inbound = two_rows; outbound = [] }

abbrev delivered : List Delivered
delivered =
    record { message_out_id = "r1"; platform_message_id = some "171.9"; status = Outcome.delivered }
    ∷ []

sent_test : write_message_out 9000 reply [] two_rows ≡ some (7, out_row 9000 7 reply ∷ [])
unfolding write_message_out
sent_test = refl

write_message_out-Finds_example : Finds 7 (out_row 9000 7 reply) delivered (
    write_all
      (Write.insert next_message ∷ (Write.send 9950 reply ∷ []))
      (record db { outbound = out_row 9000 7 reply ∷ [] }))
write_message_out-Finds_example =
    write_message_out-Finds 9000 reply db 7 (out_row 9000 7 reply ∷ [])
      (Write.insert next_message ∷ (Write.send 9950 reply ∷ [])) delivered
      ((((ne_of_str_eq "m3" "m1" refl, omega arith), tt), (tt, tt)), omega arith) sent_test
