-- ===== src/Tests/Deliveries.antt =====
-- The delivery of outbound messages.
use aimclaw.Base.{
  ◌≤◌, ◌≡◌, refl, true, false, Bool, none, some, List, [], ◌∷◌, arith, if◌then◌else◌, All, ◌++◌,
  ◌%◌, ◌<◌,
}
use aimclaw.Json.{obj, field, end, str, json}
use aimclaw.Delivery.{MessageOut, failed, get_due_outbound_messages, mark, max_delivery_attempts}
use aimclaw.Permissions.Access.{strict}
use aimclaw.Delivery.Questions.{track_question}
use aimclaw.Delivery.Messages.{
  Host, Session, Queue, MessagingGroup, deliver_message, target_of, drain_session, note_failure,
}
use aimclaw.Delivery.Messages.Turns.{calls, settled}
use aimclaw.Delivery.Messages.Authorized.{AddsAuthorized, drain_session-AddsAuthorized}
use aimclaw.Delivery.Messages.Settled.{Poll, polls, polls_settle, polls_call_thrice}
use aimclaw.Delivery.Direct.{
  DirectMessage, greatest_seq, write_outbound_direct, write_outbound_direct_lem,
}
use aimclaw.Delivery.Inflight.{Drains, enter, leave, Steps, Step, IsExclusive, Steps-IsExclusive}

abbrev chat : MessagingGroup
chat = record {
  id = "mg";
  channel_type = "slack";
  platform_id = "C1";
  instance = "slack";
  is_group = true;
  unknown_sender_policy = strict;
  is_denied = false;
}

abbrev own : Session
own = record {
  id = "s";
  agent_group_id = "g";
  messaging_group_id = some "mg";
  thread_id = none;
  is_active = true;
  created_at = 0;
}

abbrev stranger : Session
stranger = record own { messaging_group_id = none }

-- A platform that takes every message, or that takes none.
abbrev host : Bool → Host
host takes = record {
  now = 5000;
  has_adapter = true;
  groups = chat ∷ [];
  destinations = some [];
  has_questions = true;
  action = λ name. none;
  route_agent = λ m. true;
  final = [];
  files = λ m fs. true;
  adapter = λ c. if takes then some (some "ts") else none;
  settles_typing = λ m. true;
  text_of_number = λ n. n;
}

abbrev hello : MessageOut
hello = record {
  id = "m";
  seq = 1;
  timestamp = 1000;
  deliver_after = none;
  kind = "chat";
  platform_id = some "C1";
  channel_type = some "slack";
  thread_id = none;
  content = json (obj (field "text" (str "hi") end));
  in_reply_to = none;
  recurrence = none;
}

abbrev empty : Queue
empty = record { delivered = []; attempts = []; questions = []; sent = [] }

drains : Unit {0}
unfolding drain_session get_due_outbound_messages mark note_failure deliver_message target_of
    track_question
drains = tt

-- The reply goes out once; to another chat's session it is refused, and the platform is not called.
drain_tests :
    ((drain_session (host true) own (hello ∷ []) empty).sent
      ≡ record { message = "m"; channel_type = "slack"; platform_id = "C1"; instance = "slack" }
        ∷ [])
    × ((drain_session (host true) stranger (hello ∷ []) empty).sent ≡ [])
    × (settled "m" (drain_session (host true) own (hello ∷ []) empty) ≡ true)
    × (settled "m" (drain_session (host false) own (hello ∷ []) empty) ≡ false)
unfolding drains
drain_tests = (refl, refl, refl, refl)

drain_session-AddsAuthorized_example :
    AddsAuthorized (host true) own empty (drain_session (host true) own (hello ∷ []) empty)
drain_session-AddsAuthorized_example =
    drain_session-AddsAuthorized (host true) own (hello ∷ []) empty

abbrev poll : Bool → Poll
poll takes = record { host = host takes; rows = hello ∷ [] }

abbrev bad_polls : List Poll
bad_polls = poll false ∷ poll false ∷ poll false ∷ []

polls_settle_example : settled "m" (polls own bad_polls empty) ≡ true
polls_settle_example =
    polls_settle own "m" bad_polls empty (refl, (refl, (refl, tt))) (omega arith) (omega arith)

polls_call_thrice_example : calls "m" (polls own bad_polls empty) ≤ max_delivery_attempts
polls_call_thrice_example =
    polls_call_thrice own "m" bad_polls empty (omega arith, (omega arith, (omega arith, tt))) refl
      refl

abbrev done : Queue
done = record {
  delivered = record { message_out_id = "m"; platform_message_id = none; status = failed } ∷ [];
  attempts = [];
  questions = [];
  sent = [];
}

abbrev idle : Drains
idle = record { inflight = []; active = [] }

idle-IsExclusive : IsExclusive idle
idle-IsExclusive id = (omega arith, refl)

-- Both polls call for the session, and the one drain ends.
overlap : Steps idle (leave "s" (enter "s" (enter "s" idle)))
unfolding enter
overlap =
    Steps.step (Step.call "s")
      (Steps.step (Step.call "s") (Steps.step (Step.finish "s" (omega arith)) Steps.done))

Steps-IsExclusive_example : IsExclusive (leave "s" (enter "s" (enter "s" idle)))
Steps-IsExclusive_example = Steps-IsExclusive overlap idle-IsExclusive

abbrev denial : DirectMessage
denial = record {
  id = "deny-1";
  kind = "chat";
  platform_id = some "C1";
  channel_type = some "slack";
  thread_id = none;
  content = json (obj (field "text" (str "no") end));
}

abbrev from_container : List MessageOut
from_container = record hello { seq = 3 } ∷ []

-- After the container's row 3 the host takes the number 5.
write_outbound_direct_lem_example :
    (m : MessageOut) × (write_outbound_direct 0 denial from_container ≡ from_container ++ m ∷ [])
    × (m.id ≡ "deny-1")
    × All (λ r. r.seq < m.seq) from_container
    × (m.seq % 2 ≡ greatest_seq from_container % 2)
write_outbound_direct_lem_example = write_outbound_direct_lem 0 denial from_container refl
