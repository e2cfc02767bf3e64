-- ===== src/Router.antt =====
-- The routing of an inbound message: router.ts. What it does to other parts is a list of effects, in the
-- order of the calls; the sessions are its state.
pub mod Routing
pub mod Inbound
use Prim.Native.String
use aimclaw.Base.{
  ℕ, zero, suc, ◌+◌, String, str_eq, is_text, Bool, true, false, not, ◌&&◌, ◌||◌, Option, none,
  some, List, [], ◌∷◌, ◌++◌, any, find, ◌==◌, if◌then◌else◌,
}
use aimclaw.Json.{Json, Content, null, str, obj, raw, json, property, with_property}
use aimclaw.SessionDb.{MessageIn, NewMessage}
use aimclaw.Sessions.{
  Session, SessionMode, per_thread, agent_shared, Resolved, find_session_for_agent, resolve_session,
}
use aimclaw.Wirings.{
  MessagingGroup, MessagingGroupAgent, EngageMode, pattern, mention, mention_sticky,
  IgnoredMessagePolicy, accumulate, drop, ChannelDefaults, resolve_thread_policy,
  get_messaging_group_agents, get_messaging_group_of_instance,
}
use aimclaw.Permissions.{Central}
use aimclaw.CommandGate.{GateResult, pass, deny, gate_command}

pub record DeliveryAddress : Type 0 where
  pub channel_type : String
  pub platform_id : String
  pub thread_id : Option String

pub record InboundEvent : Type 0 where
  pub channel_type : String
  pub instance : Option String
  pub platform_id : String
  pub thread_id : Option String
  pub id : String
  pub kind : String
  pub content : Content
  pub timestamp : ℕ
  pub is_mention : Bool
  pub is_group : Option Bool
  pub reply_to : Option DeliveryAddress

-- A call that changes another part.
pub data Effect : Type 0 where
  write_message : (session : String) (message : NewMessage) → Effect
  deny_command : (session : String) (address : DeliveryAddress) (command : String) → Effect
  record_requester : (session message : String) (user : Option String) → Effect
  start_typing stop_typing wake : (session : String) → Effect
  acknowledge : (thread : Option String) → Effect
  subscribe : (platform thread : String) → Effect

-- What the resolver of the request policy may change: the event, whose content it stamps, and the central tables
pub record Stamped : Type 0 where
  pub event : InboundEvent
  pub central : Central

-- What the rest of the host, the registered hooks and the platform answer during the routing of one event.
-- `inbound` is the table of a session, `none` where it does not open; `writes` and `denies` say whether a
-- write returns; a gate that is not registered allows everything; `resolves` is the resolver of the request policy,
-- which changes nothing where none is registered, and is `none` where it throws; `matches` is the test of a regular
-- expression, `none` where it is malformed; `subscribes` says whether the adapter can.
pub record Host : Type 0 where
  pub now : ℕ
  pub central : Central
  pub lower : String → String
  pub new_id : ℕ → String
  pub inbound : String → Option (List MessageIn)
  pub agent_exists : String → Bool
  pub resolves : Stamped → Option String → String → Option Stamped
  pub access : Central → MessagingGroup → String → Bool
  pub scope : Central → MessagingGroupAgent → Bool
  pub matches : String → Json → Option Bool
  pub writes : String → NewMessage → Bool
  pub denies : String → Bool
  pub wakes : String → Bool
  pub supports_threads : Bool
  pub subscribes : Bool
  pub defaults : ChannelDefaults

abbrev matches_or : Option Bool → Bool
matches_or none = true
matches_or (some b) = b

abbrev pattern_of : Option String → String
pattern_of none = "."
pattern_of (some p) = p

abbrev has_engaged : Option (List MessageIn) → Bool
has_engaged none = false
has_engaged (some rows) = any (λ m. m.trigger) rows

-- a thread of its own: not null, not empty, and not the chat
abbrev is_sub_thread : MessagingGroup → Option String → Bool
is_sub_thread mg none = false
is_sub_thread mg (some t) = not (str_eq t "") && not (str_eq t mg.platform_id)

abbrev has_engaged_session : Host → Option Session → Bool
has_engaged_session h none = false
has_engaged_session h (some s) = has_engaged (h.inbound s.id)

abbrev is_sticky : Host → MessagingGroupAgent → MessagingGroup → Option String → List Session → Bool
is_sticky h agent mg thread sessions =
    mg.is_group
    && (is_sub_thread mg thread
        && has_engaged_session h
            (find_session_for_agent agent.agent_group_id mg.id thread sessions))

engages_by :
    EngageMode
    → Host
    → MessagingGroupAgent
    → Json
    → Bool
    → MessagingGroup
    → Option String
    → List Session
    → Bool
engages_by pattern h agent text is_mention mg thread sessions =
    let pat = pattern_of agent.engage_pattern in str_eq pat "." || matches_or (h.matches pat text)
engages_by mention h agent text is_mention mg thread sessions = is_mention
engages_by mention_sticky h agent text is_mention mg thread sessions =
    is_mention || is_sticky h agent mg thread sessions

unfoldable pub evaluate_engage :
    Host → MessagingGroupAgent → Json → Bool → MessagingGroup → Option String → List Session → Bool
unfolding engages_by find_session_for_agent
evaluate_engage h agent = engages_by agent.engage_mode h agent

abbrev is_object : Json → Bool
is_object (obj fs) = true
is_object _ = false

abbrev or_content : Option Json → Content → Content
or_content none c = c
or_content (some j) c = json j

unfoldable pub stamp_platform_message_id : Content → String → Content
unfolding with_property
stamp_platform_message_id (raw text) id = raw text
stamp_platform_message_id (json j) id =
    if is_object j
    then or_content (with_property "_nanoclawPlatformMessageId" (str id) j) (json j)
    else json j

unfoldable pub message_id_for_agent : String → String → String → String
message_id_for_agent drawn base agent =
    String.◌++◌ (if str_eq base "" then drawn else base) (String.◌++◌ ":" agent)

abbrev pub effective_mode : Bool → SessionMode → SessionMode
effective_mode true agent_shared = agent_shared
effective_mode true mode = per_thread
effective_mode false mode = mode

abbrev address_of : InboundEvent → Option String → DeliveryAddress
address_of event thread = elim event.reply_to [
  | some a ↦ a
  | none ↦ record {
    channel_type = event.channel_type;
    platform_id = event.platform_id;
    thread_id = thread;
  }
]

abbrev pub message_for : InboundEvent → DeliveryAddress → String → Bool → NewMessage
message_for event address id wakes = record {
  id = id;
  kind = event.kind;
  timestamp = event.timestamp;
  platform_id = some address.platform_id;
  channel_type = some address.channel_type;
  thread_id = address.thread_id;
  content = stamp_platform_message_id event.content event.id;
  process_after = none;
  recurrence = none;
  trigger = some wakes;
  source_session_id = none;
  on_wake = some false;
}
