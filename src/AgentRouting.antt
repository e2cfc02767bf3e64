-- ===== src/AgentRouting.antt =====
-- Messages from one agent to another: modules/agent-to-agent. What forwardAttachedFiles copies (`forwarded`) and what
-- extractAttachmentFiles leaves of a content (`stored`) are fields of `Files`.
pub mod Replies
pub mod Landing
pub mod Authority
pub mod Release
use mathlib.Core.List
use aimclaw.Base.{
  ◌>>=◌, ℕ, String, str_eq, is_text, Bool, true, false, not, ◌&&◌, ◌||◌, Option, none, some, List,
  [], ◌∷◌, any, filter, find, update_where, leb, if◌then◌else◌,
}
use aimclaw.Json.{
  Json, null, str, arr, obj, Items, nil, Fields, Content, raw, json, property, with_property,
}
use aimclaw.SessionDb.{MessageIn, NewMessage, has_id, insert_message}
use aimclaw.Sessions.{get_session, Session, agent_shared, Resolved, resolve_session}

pub data TargetType : Type 0 where
  channel agent : TargetType

pub record AgentDestination : Type 0 where
  pub agent_group_id : String
  pub local_name : String
  pub target_type : TargetType
  pub target_id : String

pub record AgentMessagePolicy : Type 0 where
  pub from_agent_group_id : String
  pub to_agent_group_id : String
  pub approver : String

pub record RoutableAgentMessage : Type 0 where
  pub id : String
  pub platform_id : Option String
  pub content : Content
  pub in_reply_to : Option String

-- The central tables, and the inbound table of each session
pub record Office : Type 0 where
  pub agent_groups : List String
  pub destinations : List AgentDestination
  pub policies : List AgentMessagePolicy
  pub sessions : List Session
  pub inbound : String → List MessageIn

abbrev pub is_edge : String → String → AgentMessagePolicy → Bool
is_edge a b p = str_eq p.from_agent_group_id a && str_eq p.to_agent_group_id b

unfoldable pub get_message_policy :
    String → String → List AgentMessagePolicy → Option AgentMessagePolicy
get_message_policy a b ps = find (is_edge a b) ps

unfoldable pub set_message_policy :
    String → String → String → List AgentMessagePolicy → List AgentMessagePolicy
set_message_policy a b approver ps =
    if any (is_edge a b) ps
    then update_where (is_edge a b) (λ p. record p { approver = approver }) ps
    else List.◌++◌ ps
        (record { from_agent_group_id = a; to_agent_group_id = b; approver = approver } ∷ [])

unfoldable pub remove_message_policy :
    String → String → List AgentMessagePolicy → List AgentMessagePolicy
remove_message_policy a b ps = filter (λ p. not (is_edge a b p)) ps

abbrev pub is_agent_type : TargetType → Bool
is_agent_type agent = true
is_agent_type channel = false

-- hasDestination for the type 'agent'
unfoldable pub has_agent_destination : String → String → List AgentDestination → Bool
has_agent_destination a b ds =
    any (λ d. str_eq d.agent_group_id a && (is_agent_type d.target_type && str_eq d.target_id b)) ds

abbrev pub is_named : String → String → AgentDestination → Bool
is_named a name d = str_eq d.agent_group_id a && str_eq d.local_name name

abbrev policies_without :
    String → Option AgentDestination → List AgentMessagePolicy → List AgentMessagePolicy
policies_without a none ps = ps
policies_without a (some d) ps =
    if is_agent_type d.target_type then filter (λ p. not (is_edge a d.target_id p)) ps else ps

unfoldable pub delete_destination : String → String → Office → Office
delete_destination a name o = record o {
  destinations = filter (λ d. not (is_named a name d)) o.destinations;
  policies = policies_without a (find (is_named a name) o.destinations) o.policies;
}

abbrev source_of : Option MessageIn → Option String
source_of none = none
source_of (some m) = m.source_session_id

unfoldable pub get_inbound_source_session_id : String → List MessageIn → Option String
get_inbound_source_session_id id rows = source_of (find (has_id id) rows)

abbrev is_set : Option String → Bool
is_set none = false
is_set (some s) = true

abbrev pub is_from_peer : String → MessageIn → Bool
is_from_peer peer m =
    is_text m.channel_type "agent" && (is_text m.platform_id peer && is_set m.source_session_id)

abbrev later_of : MessageIn → Option MessageIn → MessageIn
later_of m none = m
later_of m (some n) = if leb n.seq m.seq then m else n

-- ORDER BY seq DESC LIMIT 1
unfoldable pub latest_from : String → List MessageIn → Option MessageIn
latest_from peer [] = none
latest_from peer (m ∷ ms) =
    let rest = latest_from peer ms in if is_from_peer peer m then some (later_of m rest) else rest

unfoldable pub get_most_recent_peer_source_session_id : String → List MessageIn → Option String
unfolding latest_from
get_most_recent_peer_source_session_id peer rows = source_of (latest_from peer rows)

-- A text that is there and not empty
abbrev pub given : Option String → Option String
given none = none
given (some s) = if str_eq s "" then none else some s

abbrev pub or_else : Option String → Option String → Option String
or_else none b = b
or_else (some s) b = some s

abbrev by_reply : Option String → List MessageIn → Option String
by_reply none rows = none
by_reply (some id) rows = given (get_inbound_source_session_id id rows)

-- The session that the message answers to, or that its target last wrote from
unfoldable pub origin_of : RoutableAgentMessage → String → List MessageIn → Option String
unfolding get_inbound_source_session_id get_most_recent_peer_source_session_id
origin_of msg target rows =
    or_else (by_reply (given msg.in_reply_to) rows)
      (given (get_most_recent_peer_source_session_id target rows))

abbrev pub candidate_of : Option String → List Session → Option Session
candidate_of none rows = none
candidate_of (some id) rows = get_session id rows

abbrev pub is_candidate : String → Session → Bool
is_candidate target s = str_eq s.agent_group_id target && s.is_active

abbrev pub resolved_with : ℕ → String → String → List Session → Option Session → Resolved
resolved_with now new_id target rows none =
    resolve_session now new_id target none none agent_shared rows
resolved_with now new_id target rows (some s) =
    if is_candidate target s
    then record { session = s; sessions = rows; created = false }
    else resolve_session now new_id target none none agent_shared rows

unfoldable pub resolve_target_session :
    ℕ → String → RoutableAgentMessage → Session → String → Office → Resolved
unfolding origin_of resolve_session
resolve_target_session now new_id msg source target o =
    resolved_with now new_id target o.sessions
      (candidate_of (origin_of msg target (o.inbound source.id)) o.sessions)

pub record Files : Type 0 where
  pub forwarded : List String → List Json
  pub stored : Content → Content

abbrev texts : Items → List String
texts nil = []
texts (Items.cons (str s) xs) = s ∷ texts xs
texts (Items.cons _ xs) = texts xs

abbrev with_items : Items → List Json → Items
with_items nil [] = nil
with_items nil (j ∷ js) = Items.cons j (with_items nil js)
with_items (Items.cons x xs) js = Items.cons x (with_items xs js)

abbrev existing_items : Option (Option Json) → Items
existing_items (some (some (arr xs))) = xs
existing_items _ = nil

abbrev printed_or : Content → Option Json → Content
printed_or c none = c
printed_or c (some j) = json j

abbrev attached : Files → Json → List String → Content
attached files j [] = json j
attached files j (f ∷ fs) = printed_or (json j) (
    with_property "attachments"
      (arr (with_items (existing_items (property "attachments" j)) (files.forwarded (f ∷ fs)))) j)

abbrev names_in : Option Json → List String
names_in (some (arr xs)) = texts xs
names_in _ = []

-- none where the code throws: on null
unfoldable pub forward_file_attachments : Files → Content → Option Content
unfolding property with_property
forward_file_attachments files (raw s) = some (raw s)
forward_file_attachments files (json j) = do
  found ← property "files" j
  some (attached files j (names_in found))

abbrev pub a2a_message : ℕ → String → Session → Content → NewMessage
a2a_message now id source content = record {
  id = id;
  kind = "chat";
  timestamp = now;
  platform_id = some source.agent_group_id;
  channel_type = some "agent";
  thread_id = none;
  content = content;
  process_after = none;
  recurrence = none;
  trigger = none;
  source_session_id = some source.id;
  on_wake = none;
}

abbrev pub with_inbound : String → List MessageIn → Office → Office
with_inbound id rows o = record o {
  inbound = λ other. if str_eq id other then rows else o.inbound other;
}

-- The payload of a held message; none for a field that is not a text
pub record Payload : Type 0 where
  pub id : Option String
  pub platform_id : Option String
  pub content : Option Content
  pub in_reply_to : Option String

abbrev pub payload_of : RoutableAgentMessage → String → Payload
payload_of msg target = record {
  id = some msg.id;
  platform_id = some target;
  content = some msg.content;
  in_reply_to = msg.in_reply_to;
}

pub data Refusal : Type 0 where
  no_target unauthorized no_such_group write_failed : Refusal

-- A message is refused by an error, held for an approver, or sent to a session, which is woken.
pub data Routed : Type 0 where
  refused : Refusal → Routed
  held : (approver : String) (payload : Payload) → Routed
  sent : (session : String) → Routed

abbrev pub written : String → Office → Option (List MessageIn) → Routed × Office
written id o none = (refused write_failed, o)
written id o (some rows) = (sent id, with_inbound id rows o)

-- The clock, the drawn ids of the message and of a session, and the files
module _ (now : ℕ) (id new_id : String) (files : Files) where
  abbrev pub write_to : Session → Resolved → Office → Option Content → Routed × Office
  write_to source r o none = (refused write_failed, record o { sessions = r.sessions })
  write_to source r o (some content) =
      written r.session.id (record o { sessions = r.sessions })
        (insert_message (o.inbound r.session.id) (a2a_message now id source (files.stored content)))

  unfoldable pub perform_agent_route :
      RoutableAgentMessage → Session → String → Office → Routed × Office
  unfolding resolve_target_session forward_file_attachments insert_message
  perform_agent_route msg source target o =
      write_to source (resolve_target_session now new_id msg source target o) o
        (forward_file_attachments files msg.content)

  abbrev pub gated :
      RoutableAgentMessage → Session → String → Office → Option AgentMessagePolicy → Routed × Office
  gated msg source target o none = perform_agent_route msg source target o
  gated msg source target o (some p) = (held p.approver (payload_of msg target), o)

  abbrev pub route_to : RoutableAgentMessage → Session → String → Office → Routed × Office
  route_to msg source target o =
      let is_self = str_eq target source.agent_group_id in
      if not is_self && not (has_agent_destination source.agent_group_id target o.destinations)
      then (refused unauthorized, o)
      else if not (any (λ g. str_eq g target) o.agent_groups)
      then (refused no_such_group, o)
      else if is_self
      then perform_agent_route msg source target o
      else gated msg source target o (get_message_policy source.agent_group_id target o.policies)

  unfoldable pub route_agent_message : RoutableAgentMessage → Session → Office → Routed × Office
  unfolding has_agent_destination perform_agent_route get_message_policy
  route_agent_message msg source o = elim (given msg.platform_id) [
    | none ↦ (refused no_target, o)
    | some target ↦ route_to msg source target o
  ]

abbrev text_else : Option String → String → String
text_else none d = d
text_else (some s) d = s

abbrev content_or : Option Content → Content
content_or none = raw ""
content_or (some c) = c

abbrev pub released : Payload → String → String → RoutableAgentMessage
released p drawn target = record {
  id = text_else p.id drawn;
  platform_id = some target;
  content = content_or p.content;
  in_reply_to = p.in_reply_to;
}

abbrev pub released_to :
    ℕ
    → String
    → String
    → Files
    → String
    → Payload
    → Session
    → Office
    → Option String
    → Routed × Office
released_to now id new_id files drawn p source o none = (refused no_target, o)
released_to now id new_id files drawn p source o (some target) =
    perform_agent_route now id new_id files (released p drawn target) source target o

unfoldable pub apply_a2a_message_gate :
    ℕ → String → String → Files → String → Payload → Session → Office → Routed × Office
unfolding perform_agent_route
apply_a2a_message_gate now id new_id files drawn p source o =
    released_to now id new_id files drawn p source o (given p.platform_id)
