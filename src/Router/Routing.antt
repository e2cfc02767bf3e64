-- ===== src/Router/Routing.antt =====
-- `deliverToAgent` and the loop over the wired agents in `routeInbound` of router.ts.
pub mod Due
pub mod FanOut
pub mod Tables
pub mod Gated
use aimclaw.Base.{
  ℕ, ◌+◌, String, str_eq, Bool, true, false, not, ◌&&◌, ◌||◌, Option, none, some, List, [], ◌∷◌,
  ◌++◌, find, ◌==◌, if◌then◌else◌,
}
use aimclaw.Json.{Json}
use aimclaw.Sessions.{get_session, Session, Resolved, resolve_session}
use aimclaw.Wirings.{
  MessagingGroup, MessagingGroupAgent, EngageMode, mention_sticky, IgnoredMessagePolicy, accumulate,
  resolve_thread_policy,
}
use aimclaw.CommandGate.{GateResult, pass, deny, gate_command}
use aimclaw.Router.{
  InboundEvent, DeliveryAddress, Effect, write_message, deny_command, record_requester,
  start_typing, stop_typing, wake, acknowledge, subscribe, Host, Stamped, evaluate_engage,
  message_id_for_agent, effective_mode, address_of, message_for,
}

-- `draws` counts the ids that were drawn. `threw` says that a write threw, which ends the routing.
pub record Routed : Type 0 where
  pub sessions : List Session
  pub effects : List Effect
  pub draws : ℕ
  pub threw : Bool

-- The calls after a row that wakes the agent is written.
abbrev wake_effects : Host → String → Option Session → List Effect
wake_effects h id none = start_typing id ∷ []
wake_effects h id (some fresh) =
    start_typing id ∷ wake fresh.id ∷ (if h.wakes fresh.id then [] else (stop_typing fresh.id ∷ []))

abbrev effects_of_write :
    Host → InboundEvent → Option String → DeliveryAddress → String → Bool → Resolved → List Effect
effects_of_write h event user address id wakes r =
    write_message r.session.id (message_for event address id wakes)
    ∷ (if wakes
        then record_requester r.session.id id user
          ∷ wake_effects h r.session.id (get_session r.session.id r.sessions)
        else [])

abbrev write_or_throw :
    Host
    → InboundEvent
    → Option String
    → DeliveryAddress
    → String
    → Bool
    → Resolved
    → Routed
    → Routed
write_or_throw h event user address id wakes r st =
    if h.writes r.session.id (message_for event address id wakes)
    then record st { effects = st.effects ++ effects_of_write h event user address id wakes r }
    else record st { threw = true }

abbrev is_chat : String → Bool
is_chat kind = str_eq kind "chat" || str_eq kind "chat-sdk"

abbrev gate_of : Host → Stamped → Option String → String → GateResult
gate_of h s user agent =
    if is_chat s.event.kind then gate_command h.lower s.central s.event.content user agent else pass

abbrev by_gate :
    GateResult
    → Host
    → InboundEvent
    → Option String
    → DeliveryAddress
    → String
    → Bool
    → Resolved
    → Routed
    → Routed
by_gate pass h event user address id wakes r st = write_or_throw h event user address id wakes r st
by_gate GateResult.filter h event user address id wakes r st = st
by_gate (deny command) h event user address id wakes r st =
    if h.denies r.session.id
    then record st { effects = st.effects ++ deny_command r.session.id address command ∷ [] }
    else record st { threw = true }

abbrev resolved_for :
    Host → MessagingGroup → MessagingGroupAgent → Bool → Option String → Routed → Resolved
resolved_for h mg agent threads thread st =
    resolve_session h.now (h.new_id st.draws) agent.agent_group_id (some mg.id) thread
      (effective_mode threads agent.session_mode) st.sessions

unfoldable pub deliver_to_agent :
    Host
    → Stamped
    → Option String
    → MessagingGroup
    → MessagingGroupAgent
    → Bool
    → Option String
    → Bool
    → Routed
    → Routed
unfolding resolve_session message_id_for_agent gate_command
deliver_to_agent h s user mg agent threads thread wakes st =
    let r = resolved_for h mg agent threads thread st in
    by_gate (gate_of h s user agent.agent_group_id) h s.event user (address_of s.event thread)
      (message_id_for_agent (h.new_id (st.draws + 1)) s.event.id agent.agent_group_id) wakes r
      (record st { sessions = r.sessions; draws = st.draws + 2 })

-- The variables of the loop.
pub record FanOutState : Type 0 where
  pub routed : Routed
  pub stamped : Stamped
  pub engaged : ℕ
  pub accumulated : ℕ
  pub subscribed : Bool
  pub acknowledged : Bool

abbrev emit : Effect → Routed → Routed
emit e st = record st { effects = st.effects ++ e ∷ [] }

abbrev is_sticky_mode : EngageMode → Bool
is_sticky_mode mention_sticky = true
is_sticky_mode _ = false

abbrev accumulates : IgnoredMessagePolicy → Bool
accumulates accumulate = true
accumulates _ = false

abbrev wants_subscription : Host → MessagingGroup → MessagingGroupAgent → FanOutState → Bool
wants_subscription h mg agent f =
    not f.subscribed && (is_sticky_mode agent.engage_mode && (h.subscribes && mg.is_group))

abbrev subscribe_to : Bool → InboundEvent → Option String → FanOutState → FanOutState
subscribe_to wanted event none f = f
subscribe_to wanted event (some thread) f =
    if wanted
    then record f { routed = emit (subscribe event.platform_id thread) f.routed; subscribed = true }
    else f

abbrev acknowledged : Option String → FanOutState → FanOutState
acknowledged thread f =
    if f.acknowledged
    then f
    else record f { routed = emit (acknowledge thread) f.routed; acknowledged = true }

abbrev count_engaged : Routed → FanOutState → FanOutState
count_engaged st f = record f { routed = st; engaged = f.engaged + 1 }

-- the branch of an agent that engages
abbrev engage :
    Host
    → Option String
    → MessagingGroup
    → MessagingGroupAgent
    → Bool
    → Option String
    → FanOutState
    → FanOutState
engage h user mg agent threads thread f =
    let g = acknowledged thread f in
    let st = deliver_to_agent h f.stamped user mg agent threads thread true g.routed in
    if st.threw
    then record g { routed = st }
    else subscribe_to (wants_subscription h mg agent g) f.stamped.event thread (count_engaged st g)

-- the branch of an agent that only keeps the message as context
abbrev keep :
    Host
    → Option String
    → MessagingGroup
    → MessagingGroupAgent
    → Bool
    → Option String
    → FanOutState
    → FanOutState
keep h user mg agent threads thread f =
    let st = deliver_to_agent h f.stamped user mg agent threads thread false f.routed in
    record f { routed = st; accumulated = (if st.threw then 0 else 1) + f.accumulated }

abbrev decide :
    Host
    → Option String
    → MessagingGroup
    → MessagingGroupAgent
    → Bool
    → Option String
    → Bool
    → FanOutState
    → FanOutState
decide h user mg agent threads thread engages f =
    let access_ok = engages && h.access f.stamped.central mg agent.agent_group_id in
    let scope_ok = engages && h.scope f.stamped.central agent in
    if engages && (access_ok && scope_ok)
    then engage h user mg agent threads thread f
    else if accumulates agent.ignored_message_policy
        && not (engages && (not access_ok || not scope_ok))
    then keep h user mg agent threads thread f
    else f

-- The resolver runs for an agent that engages.
abbrev stamped_for : Host → Option String → MessagingGroupAgent → Stamped → Bool → Option Stamped
stamped_for h user agent s false = some s
stamped_for h user agent s true = h.resolves s user agent.agent_group_id

abbrev decide_stamped :
    Host
    → Option String
    → MessagingGroup
    → MessagingGroupAgent
    → Bool
    → Option String
    → Bool
    → FanOutState
    → Option Stamped
    → FanOutState
decide_stamped h user mg agent threads thread engages f none = record f {
  routed = record f.routed { threw = true };
}
decide_stamped h user mg agent threads thread engages f (some s) =
    decide h user mg agent threads thread engages (record f { stamped = s })

abbrev thread_of : Bool → InboundEvent → Option String
thread_of threads event = if threads then event.thread_id else none

abbrev threads_of : Host → MessagingGroup → MessagingGroupAgent → Bool
threads_of h mg agent =
    resolve_thread_policy agent.threads h.defaults mg.is_group h.supports_threads

-- one round of the loop
unfoldable pub attend :
    Host
    → Bool
    → Option String
    → MessagingGroup
    → Json
    → MessagingGroupAgent
    → FanOutState
    → FanOutState
unfolding evaluate_engage resolve_thread_policy deliver_to_agent
attend h is_mention user mg text agent f =
    if f.routed.threw
    then f
    else if not (h.agent_exists agent.agent_group_id)
    then f
    else (let threads = threads_of h mg agent in
        let thread = thread_of threads f.stamped.event in
        let engages = evaluate_engage h agent text is_mention mg thread f.routed.sessions in
        decide_stamped h user mg agent threads thread engages f
          (stamped_for h user agent f.stamped engages))

unfoldable pub fan_out :
    Host
    → Bool
    → Option String
    → MessagingGroup
    → Json
    → List MessagingGroupAgent
    → FanOutState
    → FanOutState
unfolding attend
fan_out h is_mention user mg text [] f = f
fan_out h is_mention user mg text (agent ∷ agents) f =
    fan_out h is_mention user mg text agents (attend h is_mention user mg text agent f)
