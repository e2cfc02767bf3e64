-- ===== src/Router/Inbound.antt =====
-- `routeInbound` of router.ts around the loop over the agents, with the thread of a direct message in Slack
-- from custom/slack-typing.ts.
pub mod Accounted
use Prim.Native.Char.{Char, code}
use Prim.Native.String
use aimclaw.Base.{
  ℕ, ◌+◌, String, str_eq, ◌≡◌, ◌≢◌, ◌⊎◌, inl, inr, refl, Bool, true, false, not, ◌&&◌, ◌||◌, Option,
  none, some, List, [], ◌∷◌, ◌++◌, any, length, leb, ltb, ◌==◌, if◌then◌else◌, arith, Bool-cases,
  Option-cases,
}
use aimclaw.Json.{Json, Content, null, str, raw, json, property}
use aimclaw.Sessions.{Session}
use aimclaw.Wirings.{
  MessagingGroup, MessagingGroupAgent, ChannelDefaults, get_messaging_group_agents,
  get_messaging_group_of_instance,
}
use aimclaw.Permissions.Access.{UnknownSenderPolicy}
use aimclaw.Router.{InboundEvent, Host}
use aimclaw.Router.Routing.{Routed, FanOutState, fan_out}

-- A row of dropped_messages.
pub data DropReason : Type 0 where
  no_agent_wired no_agent_engaged : DropReason

pub record Dropped : Type 0 where
  pub reason : DropReason
  pub user_id : Option String
  pub messaging_group_id : String

-- What the rest of the host answers before the loop: the interceptors, whether an adapter is live and a
-- channel-request gate registered, the id and the policy of a new chat, and the sender.
pub record Arrival : Type 0 where
  pub interceptors : List (InboundEvent → Bool)
  pub has_adapter : Bool
  pub has_request_gate : Bool
  pub new_group_id : String
  pub new_policy : UnknownSenderPolicy
  pub sender : Option String

-- `asked` says that the owner was asked to wire the chat, and `fan` what the loop did, where it ran.
pub record Inbound : Type 0 where
  pub groups : List MessagingGroup
  pub drops : List Dropped
  pub asked : Bool
  pub fan : Option FanOutState
  pub threw : Bool

abbrev is_false : Option Bool → Bool
is_false (some false) = true
is_false _ = false

abbrev is_true : Option Bool → Bool
is_true (some true) = true
is_true _ = false

abbrev is_slack_dm : InboundEvent → Bool
is_slack_dm event = str_eq event.channel_type "slack" && is_false event.is_group

abbrev is_end : String → Bool
is_end String.[] = true
is_end (String.◌∷◌ c s) = false

-- `[^:]+:$`, of which `seen` says that a character was read
last_segment : Bool → String → Bool
last_segment seen String.[] = false
last_segment seen (String.◌∷◌ c s) =
    let rest = last_segment true s in if code c == 58 then seen && is_end s else rest

-- `^p`, and the test of what follows
follows : String → (String → Bool) → String → Bool
follows String.[] test s = test s
follows (String.◌∷◌ p ps) test String.[] = false
follows (String.◌∷◌ p ps) test (String.◌∷◌ c s) = code p == code c && follows ps test s

unfoldable pub enable_slack_typing_thread : InboundEvent → InboundEvent
unfolding last_segment follows
enable_slack_typing_thread event = elim event.thread_id [
  | none ↦ event
  | some t ↦
      if is_slack_dm event
        && (not (str_eq event.id "")
            && (not (str_eq t "") && follows "slack:" (last_segment false) t))
      then record event { thread_id = some (String.◌++◌ t event.id) }
      else event
]

abbrev apply_threads : Bool → Bool → InboundEvent → InboundEvent
apply_threads has_adapter supports event =
    if has_adapter && not supports then record event { thread_id = none } else event

abbrev with_slack_defaults : InboundEvent → ChannelDefaults → ChannelDefaults
with_slack_defaults event d =
    if is_slack_dm event && not d.dm_threads then record d { dm_threads = true } else d

-- `parsed.text ?? ''`; `none` where it throws
abbrev text_of : Option (Option Json) → Option Json
text_of none = none
text_of (some none) = some (str "")
text_of (some (some null)) = some (str "")
text_of (some (some j)) = some j

unfoldable pub message_text : Content → Option Json
unfolding property
message_text (raw text) = some (str text)
message_text (json j) = text_of (property "text" j)

abbrev silent : List MessagingGroup → Inbound
silent groups = record { groups = groups; drops = []; asked = false; fan = none; threw = false }

abbrev dropped_as : DropReason → Option String → MessagingGroup → Dropped
dropped_as reason user mg = record { reason = reason; user_id = user; messaging_group_id = mg.id }

-- a chat without wirings
abbrev unwired : Arrival → InboundEvent → MessagingGroup → List MessagingGroup → Inbound
unwired a event mg groups =
    if not event.is_mention
    then silent groups
    else if mg.is_denied
    then silent groups
    else elim (message_text event.content) [
      | none ↦ record (silent groups) { threw = true }
      | some text ↦ record (silent groups) {
        drops = dropped_as no_agent_wired none mg ∷ [];
        asked = a.has_request_gate;
      }
    ]

abbrev pub fresh_fan : Host → InboundEvent → List Session → FanOutState
fresh_fan h event sessions = record {
  routed = record { sessions = sessions; effects = []; draws = 0; threw = false };
  stamped = record { event = event; central = h.central };
  engaged = 0;
  accumulated = 0;
  subscribed = false;
  acknowledged = false;
}

-- after the loop
abbrev finish : Option String → MessagingGroup → List MessagingGroup → FanOutState → Inbound
finish user mg groups f =
    if f.routed.threw
    then record (silent groups) { fan = some f; threw = true }
    else if f.engaged + f.accumulated == 0
    then record (silent groups) { fan = some f; drops = dropped_as no_agent_engaged user mg ∷ [] }
    else record (silent groups) { fan = some f }

abbrev slack_host : InboundEvent → Host → Host
slack_host event h = record h { defaults = with_slack_defaults event h.defaults }

abbrev wired :
    Host
    → Arrival
    → InboundEvent
    → MessagingGroup
    → List MessagingGroupAgent
    → List Session
    → List MessagingGroup
    → Inbound
wired h a event mg agents sessions groups = elim (message_text event.content) [
  | none ↦ record (silent groups) { threw = true }
  | some text ↦ finish a.sender mg groups (
      fan_out (slack_host event h) event.is_mention a.sender mg text agents
        (fresh_fan h event sessions))
]

abbrev new_group : Arrival → InboundEvent → String → MessagingGroup
new_group a event instance = record {
  id = a.new_group_id;
  channel_type = event.channel_type;
  platform_id = event.platform_id;
  instance = instance;
  is_group = is_true event.is_group;
  unknown_sender_policy = a.new_policy;
  is_denied = false;
}

abbrev in_group :
    Host
    → Arrival
    → InboundEvent
    → MessagingGroup
    → List MessagingGroupAgent
    → List Session
    → List MessagingGroup
    → Inbound
in_group h a event mg agents sessions groups =
    if length agents == 0
    then unwired a event mg groups
    else wired h a event mg agents sessions groups

abbrev instance_or : Option String → String → String
instance_or none c = c
instance_or (some i) c = i

abbrev pub instance_of : InboundEvent → String
instance_of event = instance_or event.instance event.channel_type

abbrev route_prepared :
    Host
    → Arrival
    → InboundEvent
    → List MessagingGroup
    → List MessagingGroupAgent
    → List Session
    → Inbound
route_prepared h a event groups wirings sessions =
    elim (get_messaging_group_of_instance event.channel_type event.platform_id (instance_of event)
      groups) [
        | none ↦
            if not event.is_mention
            then silent groups
            else (let mg = new_group a event (instance_of event) in
                unwired a event mg (groups ++ mg ∷ []))
        | some mg ↦ in_group h a event mg (get_messaging_group_agents mg.id wirings) sessions groups
      ]

abbrev prepared : Host → Arrival → InboundEvent → InboundEvent
prepared h a event =
    enable_slack_typing_thread (apply_threads a.has_adapter h.supports_threads event)

abbrev is_intercepted : Arrival → InboundEvent → Bool
is_intercepted a event = any (λ i. i event) a.interceptors

unfoldable pub route_inbound :
    Host
    → Arrival
    → InboundEvent
    → List MessagingGroup
    → List MessagingGroupAgent
    → List Session
    → Inbound
unfolding enable_slack_typing_thread message_text fan_out get_messaging_group_agents
    get_messaging_group_of_instance
route_inbound h a event groups wirings sessions =
    if is_intercepted a event
    then silent groups
    else route_prepared h a (prepared h a event) groups wirings sessions
