-- ===== src/Tests/Routes.antt =====
-- The routing of inbound messages, with the people of the samples as senders.
use mathlib.Core.Path.{subst}
use aimclaw.Base.{
  ◌≡◌, ◌⊎◌, refl, true, false, Bool, String, none, some, List, [], ◌∷◌, All, ne_of_str_eq, ◌==◌,
  if◌then◌else◌,
}
use aimclaw.Json.{obj, field, end, str, json}
use aimclaw.Sessions.{shared, per_thread, resolve_session}
use aimclaw.Sessions.Resolve.{IsFor, resolve_session_again}
use aimclaw.Wirings.{
  MessagingGroup, MessagingGroupAgent, mention, accumulate, get_messaging_group_agents,
  get_messaging_group_of_instance, resolve_thread_policy,
}
use aimclaw.Permissions.{can_access_agent_group}
use aimclaw.Permissions.Access.{request_approval, all, passes, access_gate, sender_scope_gate}
use aimclaw.Text.{trim, first_word, begins_with, is_space}
use aimclaw.CommandGate.{gate_command}
use aimclaw.Router.{InboundEvent, Host, Effect, evaluate_engage}
use aimclaw.Router.Routing.{deliver_to_agent, fan_out}
use aimclaw.Router.Routing.FanOut.{IsDue, fan_out-IsDue}
use aimclaw.Permissions.Integrity.{IsConsistent}
use aimclaw.Router.Routing.Tables.{KeepsConsistent}
use aimclaw.Router.Routing.Gated.{UsesGates, IsFromKnown, fan_out-IsFromKnown}
use aimclaw.Router.Inbound.{Arrival, Inbound, route_inbound, fresh_fan, message_text}
use aimclaw.Router.Inbound.Accounted.{IsAccounted, IsDenied, route_inbound-IsAccounted}
use aimclaw.Tests.Samples.{team}
use aimclaw.Tests.People.{team-IsConsistent}

abbrev general : MessagingGroup
general = record {
  id = "mg";
  channel_type = "slack";
  platform_id = "C1";
  instance = "slack";
  is_group = true;
  unknown_sender_policy = request_approval;
  is_denied = false;
}

abbrev wiring : MessagingGroupAgent
wiring = record {
  messaging_group_id = "mg";
  agent_group_id = "g";
  engage_mode = mention;
  engage_pattern = none;
  sender_scope = all;
  ignored_message_policy = accumulate;
  session_mode = shared;
  priority = 0;
  threads = none;
}

abbrev host : String → Host
host sender = record {
  now = 1000;
  central = team;
  lower = λ s. s;
  new_id = λ n. if n == 0 then "sess" else "msg";
  inbound = λ s. none;
  agent_exists = λ g. true;
  resolves = λ s user group. some s;
  access = λ c mg group. passes (access_gate c mg.unknown_sender_policy (some sender) group);
  scope = λ c agent. sender_scope_gate c agent.sender_scope (some sender) agent.agent_group_id;
  matches = λ p t. some false;
  writes = λ s m. true;
  denies = λ s. true;
  wakes = λ s. true;
  supports_threads = true;
  subscribes = true;
  defaults = record { dm_threads = false; group_threads = true };
}

abbrev event : InboundEvent
event = record {
  channel_type = "slack";
  instance = none;
  platform_id = "C1";
  thread_id = some "T1";
  id = "p1";
  kind = "chat";
  content = json (obj (field "text" (str "hi") end));
  timestamp = 1000;
  is_mention = true;
  is_group = some true;
  reply_to = none;
}

abbrev arrival : String → Arrival
arrival sender = record {
  interceptors = [];
  has_adapter = true;
  has_request_gate = true;
  new_group_id = "mg-2";
  new_policy = request_approval;
  sender = some sender;
}

abbrev engaged_in : Inbound → Bool
engaged_in r = elim r.fan [ none ↦ false | some f ↦ f.engaged == 1 ]

routes : Unit {0}
unfolding route_inbound evaluate_engage deliver_to_agent fan_out gate_command message_text
    get_messaging_group_agents get_messaging_group_of_instance resolve_thread_policy access_gate
    sender_scope_gate can_access_agent_group resolve_session trim first_word begins_with is_space
routes = tt

-- Cat is a member and wakes the agent; Dan does not, and his message is not kept either.
route_tests :
    (engaged_in (
        route_inbound
          (host "slack:cat")
          (arrival "slack:cat")
          event
          (general ∷ [])
          (wiring ∷ [])
          [])
      ≡ true)
    × (engaged_in (
          route_inbound
            (host "slack:dan")
            (arrival "slack:dan")
            event
            (general ∷ [])
            (wiring ∷ [])
            [])
        ≡ false)
unfolding routes
route_tests = (refl, refl)

route_inbound-IsAccounted_example :
    IsAccounted
      (route_inbound (host "slack:dan") (arrival "slack:dan") event (general ∷ []) (wiring ∷ []) [])
    ⊎ IsDenied event (general ∷ [])
route_inbound-IsAccounted_example =
    route_inbound-IsAccounted (host "slack:dan") (arrival "slack:dan") event (general ∷ [])
      (wiring ∷ []) [] refl refl

abbrev cat : String
cat = "slack:cat"

fan_out-IsDue_example :
    (new : List Effect) × ((fan_out
        (host cat)
        true
        (some cat)
        general
        (str "hi")
        (wiring ∷ [])
        (fresh_fan (host cat) event [])).routed.effects
      ≡ new)
    × All
        (IsDue
          (host cat)
          true
          (some cat)
          general
          (str "hi")
          (wiring ∷ [])
          (fresh_fan (host cat) event []))
        new
fan_out-IsDue_example =
    fan_out-IsDue (host cat) true (some cat) general (str "hi") (wiring ∷ [])
      (fresh_fan (host cat) event [])

host-UsesGates : UsesGates (host cat) (some cat)
host-UsesGates c mg agent = (refl, refl)

host-KeepsConsistent : KeepsConsistent (host cat)
host-KeepsConsistent s s' user group c e =
    let same : s ≡ s' = cc in subst (λ x. IsConsistent x.central) same c

fan_out-IsFromKnown_example :
    (new : List Effect) × ((fan_out
        (host cat)
        true
        (some cat)
        general
        (str "hi")
        (wiring ∷ [])
        (fresh_fan (host cat) event [])).routed.effects
      ≡ new)
    × All
        (IsFromKnown
          (host cat)
          true
          (some cat)
          general
          (str "hi")
          (wiring ∷ [])
          (fresh_fan (host cat) event []))
        new
fan_out-IsFromKnown_example =
    fan_out-IsFromKnown (host cat) true (some cat) general (str "hi") host-UsesGates
      host-KeepsConsistent (wiring ∷ []) (fresh_fan (host cat) event []) team-IsConsistent

resolve_session_again_example :
    IsFor "g" "mg"
      (some "T1")
      per_thread
      (resolve_session 1 "s1" "g" (some "mg") (some "T1") per_thread []).session
    × (resolve_session 2 "s2" "g"
          (some "mg")
          (some "T1")
          per_thread
          (resolve_session 1 "s1" "g" (some "mg") (some "T1") per_thread []).sessions
        ≡ record {
          session = (resolve_session 1 "s1" "g" (some "mg") (some "T1") per_thread []).session;
          sessions = (resolve_session 1 "s1" "g" (some "mg") (some "T1") per_thread []).sessions;
          created = false;
        })
resolve_session_again_example =
    resolve_session_again 1 "s1" "g" "mg" (some "T1") [] per_thread 2 "s2"
      (ne_of_str_eq "mg" "" refl) (λ e. cc)
