-- ===== src/Tests/Agents.antt =====
-- Two agents that write to each other, and the destinations of one.
use aimclaw.Base.{find, List, ◌≢◌, String, str_eq, any, ◌≡◌, refl, true, none, some, [], ◌∷◌, ◌++◌}
use aimclaw.Json.{raw}
use aimclaw.Sessions.{Session, get_session}
use aimclaw.AgentRouting.{
  is_named, has_agent_destination, get_message_policy, AgentDestination, Office, Files,
  RoutableAgentMessage, TargetType, sent, held, payload_of, perform_agent_route,
  route_agent_message, resolve_target_session, apply_a2a_message_gate,
}
use aimclaw.AgentRouting.Replies.{perform_agent_route-returns}
use aimclaw.AgentRouting.Landing.{LandsIn}
use aimclaw.AgentRouting.Authority.{MayReach, route_agent_message-MayReach}
use aimclaw.AgentRouting.Release.{route_agent_message-released}
use aimclaw.Destinations.{
  Chat, AgentGroup, DestinationRow, Route, SessionRouting, routed, write_destinations, find_by_name,
  resolve_routing,
}
use aimclaw.Destinations.Copied.{HasKeys, entry_under, write_destinations-find}
use aimclaw.Destinations.Granted.{IsGranted, resolve_routing-IsGranted}

abbrev session : String → String → Session
session id agent = record {
  id = id;
  agent_group_id = agent;
  messaging_group_id = some "chat";
  thread_id = none;
  is_active = true;
  created_at = 1;
}

abbrev files : Files
files = record { forwarded = λ names. []; stored = λ c. c }

abbrev office : Office
office = record {
  agent_groups = "ann" ∷ ("bob" ∷ []);
  destinations =
      record {
        agent_group_id = "ann";
        local_name = "b";
        target_type = TargetType.agent;
        target_id = "bob";
      }
      ∷ [];
  policies = [];
  sessions = session "s1" "ann" ∷ (session "s2" "ann" ∷ (session "s3" "bob" ∷ []));
  inbound = λ id. [];
}

abbrev watched : Office
watched = record office {
  policies =
      record { from_agent_group_id = "ann"; to_agent_group_id = "bob"; approver = "dan" } ∷ [];
}

abbrev question : RoutableAgentMessage
question = record { id = "q"; platform_id = some "bob"; content = raw "hi"; in_reply_to = none }

abbrev answer : RoutableAgentMessage
answer = record { id = "r"; platform_id = some "ann"; content = raw "yes"; in_reply_to = some "m" }

abbrev after : Office
after = (perform_agent_route 5 "m" "n" files question (session "s1" "ann") "bob" office).1

question_sent :
    perform_agent_route 5 "m" "n" files question (session "s1" "ann") "bob" office
    ≡ (sent "s3", after)
unfolding perform_agent_route
question_sent = refl

asking : get_session "s1" after.sessions ≡ some (session "s1" "ann")
unfolding perform_agent_route
asking = refl

no_more : after.inbound "s3" ≡ after.inbound "s3" ++ []
unfolding perform_agent_route
no_more = refl

perform_agent_route-returns_example :
    (resolve_target_session 9 "k" answer (session "s3" "bob") "ann" after).session
    ≡ session "s1" "ann"
perform_agent_route-returns_example =
    perform_agent_route-returns 5 "m" "n" files question answer (session "s1" "ann")
      (session "s3" "bob") "bob" office after after [] 9 "k" question_sent refl no_more asking refl
      (λ e. cc) (λ e. cc)

abbrev answering : Office
answering = record office {
  destinations =
      record {
        agent_group_id = "bob";
        local_name = "a";
        target_type = TargetType.agent;
        target_id = "ann";
      }
      ∷ [];
  inbound = after.inbound;
}

abbrev answered : Office
answered = (route_agent_message 6 "k" "n" files answer (session "s3" "bob") answering).1

answer_sent :
    route_agent_message 6 "k" "n" files answer (session "s3" "bob") answering
    ≡ (sent "s1", answered)
unfolding route_agent_message perform_agent_route
answer_sent = refl

route_agent_message-MayReach_example :
    (target : String) × ((some "ann" ≡ some target)
      × MayReach (session "s3" "bob") target answering
      × (any (λ g. str_eq g target) answering.agent_groups ≡ true)
      × LandsIn "k" (session "s3" "bob") target "s1" answering answered)
route_agent_message-MayReach_example =
    route_agent_message-MayReach 6 "k" "n" files answer (session "s3" "bob") "s1" answering answered
      answer_sent

question_held :
    route_agent_message 5 "m" "n" files question (session "s1" "ann") watched
    ≡ (held "dan" (payload_of question "bob"), watched)
unfolding route_agent_message
question_held = refl

bob_is_known : has_agent_destination "ann" "bob" office.destinations ≡ true
unfolding has_agent_destination
bob_is_known = refl

free_edge : get_message_policy "ann" "bob" office.policies ≡ none
unfolding get_message_policy
free_edge = refl

route_agent_message-released_example :
    (watched ≡ watched)
    × (apply_a2a_message_gate 8 "p" "n" files "d"
          (payload_of question "bob")
          (session "s1" "ann")
          office
        ≡ route_agent_message 8 "p" "n" files question (session "s1" "ann") office)
route_agent_message-released_example =
    route_agent_message-released 5 "m" "n" files question (session "s1" "ann") "bob" "dan"
      (payload_of question "bob") watched watched refl question_held office 8 "p" "n" "d"
      bob_is_known refl free_edge

abbrev chats : List Chat
chats =
    record {
      id = "c";
      name = none;
      channel_type = "slack";
      platform_id = "slack:C1";
      instance = "slack";
    }
    ∷ []

abbrev groups : List AgentGroup
groups = record { id = "ann"; name = "Ann" } ∷ (record { id = "bob"; name = "Bob" } ∷ [])

abbrev known : List AgentDestination
known =
    record {
      agent_group_id = "ann";
      local_name = "b";
      target_type = TargetType.agent;
      target_id = "bob";
    }
    ∷ (record {
      agent_group_id = "bob";
      local_name = "b";
      target_type = TargetType.channel;
      target_id = "c";
    }
        ∷ (record {
          agent_group_id = "ann";
          local_name = "gone";
          target_type = TargetType.agent;
          target_id = "x";
        }
            ∷ []))

known-HasKeys : HasKeys known
known-HasKeys = (refl, (refl, (refl, tt)))

abbrev copied : List DestinationRow
copied =
    record {
      name = "b";
      display_name = some "Bob";
      type = TargetType.agent;
      channel_type = none;
      platform_id = none;
      agent_group_id = some "bob";
    }
    ∷ []

copied_test : write_destinations chats groups "ann" known [] ≡ some copied
unfolding write_destinations
copied_test = refl

write_destinations-find_example :
    (rows : List DestinationRow) × ((write_destinations chats groups "ann" known copied ≡ some rows)
      × ((name : String)
          → find_by_name name rows
            ≡ entry_under chats groups "ann" (find (is_named "ann" name) known)))
write_destinations-find_example =
    write_destinations-find chats groups "ann" known copied known-HasKeys

abbrev nowhere : SessionRouting
nowhere = record { channel_type = none; platform_id = none; thread_id = none }

abbrev to_bob : Route
to_bob = record { channel_type = "agent"; platform_id = "bob"; thread_id = none }

named_bob : resolve_routing nowhere [] copied (some "b") ≡ routed to_bob
unfolding resolve_routing
named_bob = refl

not_named : ◌≢◌ {A = String} "b" ""
not_named e = cc

resolve_routing-IsGranted_example : IsGranted chats groups "ann" known to_bob
resolve_routing-IsGranted_example =
    resolve_routing-IsGranted chats groups "ann" known [] copied nowhere [] "b" to_bob known-HasKeys
      copied_test not_named named_bob
