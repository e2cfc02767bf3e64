-- ===== src/Runner/Outbox.antt =====
-- container/agent-runner/src/db/messages-out.ts.
pub mod Numbers
pub mod Lookups
use aimclaw.Base.{
  ℕ, ◌+◌, ◌%◌, max, String, str_eq, is_text, Bool, true, false, not, ◌&&◌, ◌||◌, Option, none, some,
  List, [], ◌∷◌, ◌++◌, any, find, ◌==◌, if◌then◌else◌,
}
use aimclaw.Json.{Json, str, Content, raw, json, property}
use aimclaw.SessionDb.{MessageIn, Stamp, max_seq}
use aimclaw.Delivery.{MessageOut, Delivered}
use aimclaw.Delivery.Direct.{greatest_seq}

-- The optional fields may be left out, and are null then.
pub record WriteMessageOut : Type 0 where
  pub id : String
  pub in_reply_to : Option String
  pub deliver_after : Option Stamp
  pub recurrence : Option String
  pub kind : String
  pub platform_id : Option String
  pub channel_type : Option String
  pub thread_id : Option String
  pub content : Content

unfoldable pub next_odd_seq : List MessageOut → List MessageIn → ℕ
unfolding greatest_seq max_seq
next_odd_seq outbound inbound =
    let top = max (greatest_seq outbound) (max_seq inbound) in
    if top % 2 == 0 then top + 1 else top + 2

abbrev pub out_row : ℕ → ℕ → WriteMessageOut → MessageOut
out_row now seq msg = record {
  id = msg.id;
  seq = seq;
  timestamp = now;
  deliver_after = msg.deliver_after;
  kind = msg.kind;
  platform_id = msg.platform_id;
  channel_type = msg.channel_type;
  thread_id = msg.thread_id;
  content = msg.content;
  in_reply_to = msg.in_reply_to;
  recurrence = msg.recurrence;
}

-- INSERT, under PRIMARY KEY (id) and UNIQUE (seq); with the number that is returned
unfoldable pub write_message_out :
    ℕ → WriteMessageOut → List MessageOut → List MessageIn → Option (ℕ × List MessageOut)
unfolding next_odd_seq
write_message_out now msg outbound inbound =
    let seq = next_odd_seq outbound inbound in
    if any (λ r. str_eq r.id msg.id || r.seq == seq) outbound
    then none
    else some (seq, outbound ++ out_row now seq msg ∷ [])

-- `_nanoclawPlatformMessageId`, where it is a text that is not empty
abbrev pub text_or : String → Option (Option Json) → String
text_or id (some (some (str s))) = if str_eq s "" then id else s
text_or id _ = id

unfoldable pub platform_id_in : MessageIn → String
unfolding property
platform_id_in m = elim m.content [
  | raw s ↦ m.id
  | json j ↦ text_or m.id (property "_nanoclawPlatformMessageId" j)
]

abbrev pub delivered_or : String → Option Delivered → String
delivered_or id none = id
delivered_or id (some d) = elim d.platform_message_id [
  | none ↦ id
  | some p ↦ if str_eq p "" then id else p
]

abbrev pub has_seq_in : ℕ → MessageIn → Bool
has_seq_in seq m = m.seq == seq

abbrev pub has_seq_out : ℕ → MessageOut → Bool
has_seq_out seq m = m.seq == seq

abbrev pub delivered_as : List Delivered → Option MessageOut → Option String
delivered_as delivered none = none
delivered_as delivered (some m) =
    some (delivered_or m.id (find (λ d. str_eq d.message_out_id m.id) delivered))

unfoldable pub get_message_id_by_seq :
    ℕ → List MessageIn → List MessageOut → List Delivered → Option String
unfolding platform_id_in
get_message_id_by_seq seq inbound outbound delivered = elim (find (has_seq_in seq) inbound) [
  | some m ↦ some (platform_id_in m)
  | none ↦ delivered_as delivered (find (has_seq_out seq) outbound)
]

pub record Routing : Type 0 where
  pub channel_type : Option String
  pub platform_id : Option String
  pub thread_id : Option String

abbrev pub routing_in : MessageIn → Routing
routing_in m = record {
  channel_type = m.channel_type;
  platform_id = m.platform_id;
  thread_id = m.thread_id;
}

abbrev pub routing_out : MessageOut → Routing
routing_out m = record {
  channel_type = m.channel_type;
  platform_id = m.platform_id;
  thread_id = m.thread_id;
}

abbrev routed_out : Option MessageOut → Option Routing
routed_out none = none
routed_out (some m) = some (routing_out m)

unfoldable pub get_routing_by_seq : ℕ → List MessageIn → List MessageOut → Option Routing
get_routing_by_seq seq inbound outbound = elim (find (has_seq_in seq) inbound) [
  | some m ↦ some (routing_in m)
  | none ↦ routed_out (find (has_seq_out seq) outbound)
]

abbrev is_given : Option String → Bool
is_given none = false
is_given (some s) = not (str_eq s "")

abbrev is_set : Option String → Bool
is_set none = false
is_set (some s) = true

abbrev equals : Option String → Option String → Bool
equals o none = false
equals o (some s) = is_text o s

abbrev pub is_task_send : String → Option String → Option String → MessageOut → Bool
is_task_send id platform_id channel_type m =
    is_text m.in_reply_to id
    && (str_eq m.kind "chat"
        && (is_set m.platform_id
            && (is_set m.channel_type
                && (not (is_given platform_id && is_given channel_type)
                    || (equals m.platform_id platform_id && equals m.channel_type channel_type)))))

unfoldable pub has_task_send :
    Option String → Option String → Option String → List MessageOut → Bool
has_task_send none platform_id channel_type rows = false
has_task_send (some id) platform_id channel_type rows =
    if str_eq id "" then false else any (is_task_send id platform_id channel_type) rows
