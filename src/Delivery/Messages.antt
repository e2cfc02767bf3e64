-- ===== src/Delivery/Messages.antt =====
-- `deliverMessage`, `drainSession` and `deliverSessionMessages` of delivery.ts.
pub mod Calls
pub mod Turns
pub mod Settled
pub mod Authorized
use aimclaw.Base.{
  ℕ, ◌+◌, String, str_eq, is_text, Bool, true, false, not, ◌&&◌, ◌||◌, Option, none, some, List, [],
  ◌∷◌, ◌++◌, any, filter, find, leb, if◌then◌else◌,
}
use aimclaw.Json.{Json, Items, Content, null, bool, str, arr, nil, raw, json, property}
pub use aimclaw.Sessions.{Session}
pub use aimclaw.Delivery.World.{Destination, Sent, Queue, Host}
pub use aimclaw.Wirings.{MessagingGroup}
use aimclaw.Wirings.{get_messaging_group_by_platform}
use aimclaw.Delivery.{
  MessageOut, Delivered, Attempt, max_delivery_attempts, get_due_outbound_messages, is_delivered,
  mark_delivered, mark_delivery_failed, attempts_of, set_attempts, delete_attempts,
}
use aimclaw.Delivery.Questions.{PendingQuestion, get, track_question}

-- How `deliverMessage` ends: the platform's message id, if there is one, or `none` where it throws.
pub record Attempted : Type 0 where
  pub queue : Queue
  pub result : Option (Option String)

abbrev pub throws : Queue → Attempted
throws q = record { queue = q; result = none }

abbrev pub returns : Option String → Queue → Attempted
returns r q = record { queue = q; result = some r }

-- A missing field and an empty one are the same to `&&`.
abbrev pub set : Option String → Option String
set none = none
set (some s) = if str_eq s "" then none else some s

abbrev call_action : Option (Json → Bool) → Json → Queue → Attempted
call_action none content q = returns none q
call_action (some handler) content q = if handler content then returns none q else throws q

abbrev action_of : Host → Option Json → Option (Json → Bool)
action_of h (some (str name)) = h.action name
action_of h _ = none

unfoldable pub handle_system_action : Host → Json → Queue → Attempted
unfolding property
handle_system_action h null q = throws q
handle_system_action h content q = call_action (action_of h (get "action" content)) content q

abbrev get_messaging_group : Host → Option String → Option MessagingGroup
get_messaging_group h none = none
get_messaging_group h (some id) = if str_eq id "" then none else find (λ g. str_eq g.id id) h.groups

abbrev origin_or :
    Option MessagingGroup → String → String → Option MessagingGroup → Option MessagingGroup
origin_or none channel platform other = other
origin_or (some g) channel platform other =
    if str_eq g.channel_type channel && str_eq g.platform_id platform then some g else other

abbrev pub has_destination : Option (List Destination) → String → String → Bool
has_destination none agent target = true
has_destination (some ds) agent target =
    any (λ d. str_eq d.agent_group_id agent && str_eq d.target_id target) ds

-- The chat that a message may be sent to; `none` where it throws.
abbrev permit : Host → Session → Option MessagingGroup → Option MessagingGroup
permit h s none = none
permit h s (some g) =
    if is_text s.messaging_group_id g.id || has_destination h.destinations s.agent_group_id g.id
    then some g
    else none

unfoldable pub target_of : Host → Session → String → String → Option MessagingGroup
unfolding get_messaging_group_by_platform
target_of h s channel platform = permit h s (
    origin_or (get_messaging_group h s.messaging_group_id) channel platform
      (get_messaging_group_by_platform channel platform h.groups))

abbrev is_final : Json → Bool
is_final content = elim (get "_nanoclawFinal" content) [ some (bool b) ↦ b | _ ↦ false ]

-- the handlers in their order: `none` where one throws, `some none` where none handles the message
abbrev try_final :
    List (Json → MessageOut → Option (Option (Option String)))
    → Json
    → MessageOut
    → Option (Option (Option String))
try_final [] content msg = some none
try_final (f ∷ fs) content msg =
    let rest = try_final fs content msg in
    elim (f content msg) [ none ↦ none | some none ↦ rest | some (some id) ↦ some (some id) ]

abbrev final_of : Host → Json → MessageOut → Option (Option (Option String))
final_of h content msg = if is_final content then try_final h.final content msg else some none

abbrev files_of : Option Json → Items
files_of (some (arr xs)) = xs
files_of _ = nil

abbrev is_empty : Items → Bool
is_empty nil = true
is_empty _ = false

-- The last part: the files, and the call of the adapter.
abbrev send : Host → MessageOut → Items → Sent → Queue → Attempted
send h msg files call q =
    if is_empty files || h.files msg files
    then record { queue = record q { sent = q.sent ++ call ∷ [] }; result = h.adapter call }
    else throws q

abbrev call_for : MessageOut → MessagingGroup → String → String → Sent
call_for msg g channel platform = record {
  message = msg.id;
  channel_type = channel;
  platform_id = platform;
  instance = g.instance;
}

abbrev with_questions : Option (List PendingQuestion) → Queue → (Queue → Attempted) → Attempted
with_questions none q k = throws q
with_questions (some qs) q k = k (record q { questions = qs })

abbrev track : Host → Session → MessageOut → Json → Queue → Option (List PendingQuestion)
track h s msg content q =
    track_question h.text_of_number h.has_questions s.id msg content q.questions

-- with the address: the check, then the native way, the questions, and the adapter
abbrev deliver_to : Host → Session → MessageOut → Json → String → String → Queue → Attempted
deliver_to h s msg content channel platform q = elim (target_of h s channel platform) [
  | none ↦ throws q
  | some g ↦ elim (final_of h content msg) [
    | none ↦ throws q
    | some (some id) ↦ returns id q
    | some none ↦
        with_questions (track h s msg content q) q
          (send h msg (files_of (get "files" content)) (call_for msg g channel platform))
  ]
]

-- without an address
abbrev deliver_nowhere : Host → Session → MessageOut → Json → Queue → Attempted
deliver_nowhere h s msg content q = elim (final_of h content msg) [
  | none ↦ throws q
  | some (some id) ↦ returns id q
  | some none ↦ with_questions (track h s msg content q) q (returns none)
]

abbrev to_channel :
    Host → Session → MessageOut → Json → Option String → Option String → Queue → Attempted
to_channel h s msg null channel platform q = throws q
to_channel h s msg content (some channel) (some platform) q =
    deliver_to h s msg content channel platform q
to_channel h s msg content channel platform q = deliver_nowhere h s msg content q

abbrev is_some {ℓ} : {A : Type ℓ} → Option A → Bool
is_some none = false
is_some (some a) = true

abbrev to_agent : Host → MessageOut → Queue → Attempted
to_agent h msg q = if is_some h.destinations && h.route_agent msg then returns none q else throws q

abbrev deliver_content : Host → Session → MessageOut → Content → Queue → Attempted
deliver_content h s msg (raw text) q = throws q
deliver_content h s msg (json content) q =
    if str_eq msg.kind "system"
    then handle_system_action h content q
    else if is_text msg.channel_type "agent"
    then to_agent h msg q
    else to_channel h s msg content (set msg.channel_type) (set msg.platform_id) q

unfoldable pub deliver_message : Host → Session → MessageOut → Queue → Attempted
unfolding handle_system_action target_of track_question
deliver_message h s msg q =
    if h.has_adapter then deliver_content h s msg msg.content q else returns none q

-- the `catch` of the loop
unfoldable pub note_failure : MessageOut → Queue → Queue
note_failure msg q =
    let attempts = attempts_of msg.id q.attempts + 1 in
    if leb max_delivery_attempts attempts
    then record q {
      delivered = mark_delivery_failed msg.id q.delivered;
      attempts = delete_attempts msg.id q.attempts;
    }
    else record q { attempts = set_attempts msg.id attempts q.attempts }

-- The end of the `try`: the typing indicator of a message that a user sees. The content is read again
-- there, which throws where it is no object or text that has properties.
abbrev is_readable : Content → Bool
is_readable (raw text) = false
is_readable (json null) = false
is_readable (json content) = true

abbrev is_internal : MessageOut → Bool
is_internal msg = str_eq msg.kind "system" || is_text msg.channel_type "agent"

abbrev finishes : Host → MessageOut → Bool
finishes h msg = is_internal msg || (is_readable msg.content && h.settles_typing msg)

abbrev note_delivered : MessageOut → Option String → Queue → Queue
note_delivered msg id q = record q {
  delivered = mark_delivered msg.id id q.delivered;
  attempts = delete_attempts msg.id q.attempts;
}

-- one round of the loop, after the delivery
abbrev note : Host → MessageOut → Queue → Option (Option String) → Queue
note h msg q none = note_failure msg q
note h msg q (some id) =
    if finishes h msg then note_delivered msg id q else note_failure msg (note_delivered msg id q)

unfoldable pub attempt : Host → Session → MessageOut → Queue → Queue
unfolding deliver_message note_failure
attempt h s msg q = let a = deliver_message h s msg q in note h msg a.queue a.result

unfoldable pub attempt_all : Host → Session → List MessageOut → Queue → Queue
unfolding attempt
attempt_all h s [] q = q
attempt_all h s (msg ∷ msgs) q = attempt_all h s msgs (attempt h s msg q)

abbrev pub undelivered : Host → List MessageOut → Queue → List MessageOut
undelivered h rows q =
    filter (λ m. not (is_delivered q.delivered m.id)) (get_due_outbound_messages h.now rows)

-- once the databases are open
unfoldable pub drain_session : Host → Session → List MessageOut → Queue → Queue
unfolding attempt_all
drain_session h s rows q = attempt_all h s (undelivered h rows q) q
