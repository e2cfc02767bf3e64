-- ===== src/Destinations.antt =====
-- The destinations of an agent, which the host copies into each session and the container looks up:
-- write-destinations.ts of modules/agent-to-agent, and destinations.ts with resolveRouting of mcp-tools/core.ts
-- in container/agent-runner/src.
pub mod Copied
pub mod Granted
use aimclaw.Base.{
  ◌>>=◌, String, str_eq, is_text, Bool, true, false, ◌&&◌, ◌||◌, Option, none, some, List, [], ◌∷◌,
  ◌++◌, map, any, filter, find, if◌then◌else◌,
}
use aimclaw.SessionDb.{MessageIn}
use aimclaw.Runner.Inbox.{ReplyRouting, get_destination_reply_routing}
use aimclaw.AgentRouting.{AgentDestination, TargetType, agent, channel, given}

pub record Chat : Type 0 where
  pub id : String
  pub name : Option String
  pub channel_type : String
  pub platform_id : String
  pub instance : String

pub record AgentGroup : Type 0 where
  pub id : String
  pub name : String

pub record DestinationRow : Type 0 where
  pub name : String
  pub display_name : Option String
  pub type : TargetType
  pub channel_type : Option String
  pub platform_id : Option String
  pub agent_group_id : Option String

abbrev pub or_name : Option String → String → String
or_name none d = d
or_name (some s) d = s

abbrev pub chat_row : AgentDestination → Option Chat → Option DestinationRow
chat_row d none = none
chat_row d (some c) = some (record {
  name = d.local_name;
  display_name = some (or_name c.name d.local_name);
  type = channel;
  channel_type = some c.channel_type;
  platform_id = some c.platform_id;
  agent_group_id = none;
})

abbrev pub agent_row : AgentDestination → Option AgentGroup → Option DestinationRow
agent_row d none = none
agent_row d (some g) = some (record {
  name = d.local_name;
  display_name = some g.name;
  type = agent;
  channel_type = none;
  platform_id = none;
  agent_group_id = some g.id;
})

abbrev pub is_owned : String → AgentDestination → Bool
is_owned a d = str_eq d.agent_group_id a

unfoldable pub get_destinations : String → List AgentDestination → List AgentDestination
get_destinations a ds = filter (is_owned a) ds

abbrev pub has_name : String → DestinationRow → Bool
has_name name r = str_eq r.name name

abbrev pub added : Option DestinationRow → List DestinationRow → List DestinationRow
added none rows = rows
added (some r) rows = r ∷ rows

-- INSERT under PRIMARY KEY (name); none where it throws, and the transaction with it
unfoldable pub insert_all : List DestinationRow → List DestinationRow → Option (List DestinationRow)
insert_all [] table = some table
insert_all (r ∷ rs) table =
    let rest = insert_all rs (table ++ r ∷ []) in if any (has_name r.name) table then none else rest

unfoldable pub replace_destinations :
    List DestinationRow → List DestinationRow → Option (List DestinationRow)
unfolding insert_all
replace_destinations entries table = insert_all entries []

module _ (chats : List Chat) (groups : List AgentGroup) where
  abbrev pub row_for : AgentDestination → TargetType → Option DestinationRow
  row_for d channel = chat_row d (find (λ c. str_eq c.id d.target_id) chats)
  row_for d agent = agent_row d (find (λ g. str_eq g.id d.target_id) groups)

  unfoldable pub resolved_row : AgentDestination → Option DestinationRow
  resolved_row d = row_for d d.target_type

  abbrev pub resolved_rows : List AgentDestination → List DestinationRow
  resolved_rows [] = []
  resolved_rows (d ∷ ds) = added (resolved_row d) (resolved_rows ds)

  unfoldable pub write_destinations :
      String → List AgentDestination → List DestinationRow → Option (List DestinationRow)
  unfolding get_destinations replace_destinations resolved_row
  write_destinations a ds table = replace_destinations (resolved_rows (get_destinations a ds)) table

pub record DestinationEntry : Type 0 where
  pub name : String
  pub display_name : String
  pub type : TargetType
  pub channel_type : Option String
  pub platform_id : Option String
  pub agent_group_id : Option String

abbrev pub row_to_entry : DestinationRow → DestinationEntry
row_to_entry r = record {
  name = r.name;
  display_name = or_name r.display_name r.name;
  type = r.type;
  channel_type = r.channel_type;
  platform_id = r.platform_id;
  agent_group_id = r.agent_group_id;
}

abbrev pub entry_of : Option DestinationRow → Option DestinationEntry
entry_of none = none
entry_of (some r) = some (row_to_entry r)

unfoldable pub find_by_name : String → List DestinationRow → Option DestinationEntry
find_by_name name rows = entry_of (find (has_name name) rows)

abbrev is_agent_row : String → DestinationRow → Bool
is_agent_row id r = elim r.type [ channel ↦ false | agent ↦ is_text r.agent_group_id id ]

abbrev is_channel_row : String → String → DestinationRow → Bool
is_channel_row c p r = elim r.type [
  | channel ↦ is_text r.channel_type c && is_text r.platform_id p
  | agent ↦ false
]

abbrev by_routing : String → String → List DestinationRow → Option DestinationEntry
by_routing c p rows =
    if str_eq c "agent"
    then entry_of (find (is_agent_row p) rows)
    else entry_of (find (is_channel_row c p) rows)

unfoldable pub find_by_routing :
    Option String → Option String → List DestinationRow → Option DestinationEntry
find_by_routing channel_type platform_id rows = do
  c ← given channel_type
  p ← given platform_id
  by_routing c p rows

pub record SessionRouting : Type 0 where
  pub channel_type : Option String
  pub platform_id : Option String
  pub thread_id : Option String

pub record Route : Type 0 where
  pub channel_type : String
  pub platform_id : String
  pub thread_id : Option String

pub data Unrouted : Type 0 where
  no_destinations several unknown : Unrouted

pub data Resolution : Type 0 where
  error : Unrouted → Resolution
  routed : Route → Resolution

-- `x!` of a column that is NULL, which no written row has
abbrev pub required : Option String → String
required none = ""
required (some s) = s

abbrev same_text : Option String → Option String → Bool
same_text none none = true
same_text (some a) (some b) = str_eq a b
same_text _ _ = false

abbrev pub thread_for : SessionRouting → DestinationEntry → Option ReplyRouting → Option String
thread_for s d (some r) = r.thread_id
thread_for s d none =
    if same_text s.channel_type d.channel_type && same_text s.platform_id d.platform_id
    then s.thread_id
    else none

abbrev pub channel_route : SessionRouting → List MessageIn → DestinationEntry → Route
channel_route s inbound d =
    let c = required d.channel_type in
    let p = required d.platform_id in
    record {
      channel_type = c;
      platform_id = p;
      thread_id = thread_for s d (get_destination_reply_routing c p inbound);
    }

abbrev pub agent_route : DestinationEntry → Route
agent_route d = record {
  channel_type = "agent";
  platform_id = required d.agent_group_id;
  thread_id = none;
}

module _ (s : SessionRouting) (inbound : List MessageIn) (rows : List DestinationRow) where
  abbrev pub route_for : DestinationEntry → TargetType → Resolution
  route_for d channel = routed (channel_route s inbound d)
  route_for d agent = routed (agent_route d)

  abbrev pub route_of : Option DestinationEntry → Resolution
  route_of none = error unknown
  route_of (some d) = route_for d d.type

  unfoldable pub route_by_name : String → Resolution
  unfolding find_by_name get_destination_reply_routing
  route_by_name name = route_of (find_by_name name rows)

  abbrev only : List DestinationRow → Resolution
  only [] = error no_destinations
  only (r ∷ []) = route_by_name r.name
  only (r ∷ (q ∷ qs)) = error several

  abbrev default_route : Option String → Option String → Resolution
  default_route (some c) (some p) =
      routed (record { channel_type = c; platform_id = p; thread_id = s.thread_id })
  default_route _ _ = only rows

  abbrev pub routed_to : Option String → Resolution
  routed_to none = default_route (given s.channel_type) (given s.platform_id)
  routed_to (some name) = route_by_name name

  unfoldable pub resolve_routing : Option String → Resolution
  unfolding route_by_name
  resolve_routing to = routed_to (given to)
