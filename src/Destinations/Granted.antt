-- ===== src/Destinations/Granted.antt =====
-- Where the container may send under a name, as the host's tables say.
use mathlib.Core.List.{Memᴰ}
use aimclaw.Base.{
  ◌>>=◌, String, str_eq, str_eq_iff, str_eq_refl, ◌≡◌, ◌≢◌, ◌⊎◌, refl, sym, ap, ◌∙◌, Bool, true,
  false, not, ◌&&◌, Option, none, some, List, any, find, arith, inl, inr, Mem-any, find-holds,
  find-Mem,
}
use aimclaw.SessionDb.{MessageIn}
use aimclaw.AgentRouting.{
  AgentDestination, TargetType, agent, channel, is_named, has_agent_destination, is_agent_type,
  given,
}
use aimclaw.Sessions.Resolve.{not_empty}
use aimclaw.Destinations.{
  Chat, AgentGroup, DestinationRow, row_for, resolved_row, write_destinations, entry_of,
  find_by_name, chat_row, agent_row, SessionRouting, Route, Resolution, routed, error, route_of,
  route_by_name, resolve_routing, routed_to,
}
use aimclaw.Destinations.Copied.{HasKeys, row_of, write_destinations-rows}

abbrev platform_of : Resolution → String
platform_of (error u) = ""
platform_of (routed r) = r.platform_id

abbrev type_of : Resolution → String
type_of (error u) = ""
type_of (routed r) = r.channel_type

abbrev written_or : List DestinationRow → Option (List DestinationRow) → List DestinationRow
written_or d none = d
written_or d (some rows) = rows

-- A destination of the agent that is a chat of this id
abbrev pub is_channel_of : String → Chat → AgentDestination → Bool
is_channel_of a c d =
    str_eq d.agent_group_id a && (not (is_agent_type d.target_type) && str_eq d.target_id c.id)

module _ (chats : List Chat) (groups : List AgentGroup) (a : String)
    (ds : List AgentDestination) where
  -- The route leads to an agent group that exists and that the agent has a destination for, or to a chat that does
  abbrev pub IsGranted : Route → Type 0
  IsGranted r =
      ((r.channel_type ≡ "agent")
        × (has_agent_destination a r.platform_id ds ≡ true)
        × (any (λ g. str_eq g.id r.platform_id) groups ≡ true))
      ⊎ ((c : Chat) × (Memᴰ c chats
            × (any (is_channel_of a c) ds ≡ true)
            × (r.channel_type ≡ c.channel_type)
            × (r.platform_id ≡ c.platform_id)))

  module _ (s : SessionRouting) (inbound : List MessageIn) (rows : List DestinationRow) where
    IsGranted-agent :
        (d : AgentDestination) (g : Option AgentGroup) (r : Route)
        → Memᴰ d ds
        → str_eq d.agent_group_id a ≡ true
        → is_agent_type d.target_type ≡ true
        → find (λ g. str_eq g.id d.target_id) groups ≡ g
        → route_of s inbound rows (entry_of (agent_row d g)) ≡ routed r
        → IsGranted r
    unfolding has_agent_destination
    IsGranted-agent d none r m own t f q = cc
    IsGranted-agent d (some g) r m own t f q =
        let there : str_eq g.id d.target_id ≡ true =
          find-holds (λ g. str_eq g.id d.target_id) groups g f in
        let at : g.id ≡ d.target_id = ground (arith, str_eq_iff g.id d.target_id) in
        let to : r.platform_id ≡ g.id = ap platform_of (sym q) in
        inl (
          ap type_of (sym q),
          rw (to, at)
              (Mem-any
                (λ d'.
                  str_eq d'.agent_group_id a
                  && (is_agent_type d'.target_type && str_eq d'.target_id d.target_id))
                ds d m (rw (own, t, str_eq_refl d.target_id) refl)),
          rw to (
              Mem-any (λ x. str_eq x.id g.id) groups g
                (find-Mem (λ g. str_eq g.id d.target_id) groups g f) (str_eq_refl g.id)),
        )

    IsGranted-channel :
        (d : AgentDestination) (c : Option Chat) (r : Route)
        → Memᴰ d ds
        → str_eq d.agent_group_id a ≡ true
        → is_agent_type d.target_type ≡ false
        → find (λ c. str_eq c.id d.target_id) chats ≡ c
        → route_of s inbound rows (entry_of (chat_row d c)) ≡ routed r
        → IsGranted r
    IsGranted-channel d none r m own t f q = cc
    IsGranted-channel d (some c) r m own t f q =
        let there : str_eq c.id d.target_id ≡ true =
          find-holds (λ c. str_eq c.id d.target_id) chats c f in
        let at : c.id ≡ d.target_id = ground (arith, str_eq_iff c.id d.target_id) in
        inr (
          c,
          (
            find-Mem (λ c. str_eq c.id d.target_id) chats c f,
            Mem-any (is_channel_of a c) ds d m (rw (own, t, at, str_eq_refl d.target_id) refl),
            ap type_of (sym q),
            ap platform_of (sym q),
          ),
        )

    IsGranted-row :
        (d : AgentDestination) (t : TargetType) (r : Route)
        → d.target_type ≡ t
        → Memᴰ d ds
        → str_eq d.agent_group_id a ≡ true
        → route_of s inbound rows (entry_of (row_for chats groups d t)) ≡ routed r
        → IsGranted r
    IsGranted-row d agent r e m own q =
        IsGranted-agent d (find (λ g. str_eq g.id d.target_id) groups) r m own (ap is_agent_type e)
          refl q
    IsGranted-row d channel r e m own q =
        IsGranted-channel d (find (λ c. str_eq c.id d.target_id) chats) r m own (ap is_agent_type e)
          refl q

    IsGranted-found :
        (name : String) (found : Option AgentDestination) (r : Route)
        → find (is_named a name) ds ≡ found
        → route_of s inbound rows (entry_of (found >>= resolved_row chats groups)) ≡ routed r
        → IsGranted r
    unfolding resolved_row
    IsGranted-found name none r f q = cc
    IsGranted-found name (some d) r f q =
        let h = find-holds (is_named a name) ds d f in
        IsGranted-row d d.target_type r refl (find-Mem (is_named a name) ds d f) (ground arith) q

  -- The names of the container lead only along destinations of its agent: once the host has written the destinations
  -- into the session, each name that resolveRouting accepts leads to an agent group that exists and that has a
  -- destination row of the agent, or to the address of a chat that exists and has one. (Where several adapter
  -- instances have a chat at one address, the row may be for another of them than the host's delivery looks at.) The
  -- name is not empty, and the rows of agent_destinations have distinct keys.
  pub resolve_routing-IsGranted :
      (table rows : List DestinationRow) (s : SessionRouting) (inbound : List MessageIn)
      (name : String) (r : Route)
      → HasKeys ds
      → write_destinations chats groups a ds table ≡ some rows
      → name ≢ ""
      → resolve_routing s inbound rows (some name) ≡ routed r
      → IsGranted r
  unfolding resolve_routing route_by_name
  resolve_routing-IsGranted table rows s inbound name r k w n q =
      let (rows', (w', all)) = write_destinations-rows chats groups a ds table k in
      let same : rows' ≡ rows = ap (written_or rows) (sym w' ∙ w) in
      let here : find_by_name name rows ≡ entry_of (row_of chats groups a name ds) =
        ap (find_by_name name) (sym same) ∙ all name in
      let named : given (some name) ≡ some name = rw (not_empty n) refl in
      let go : route_of s inbound rows (find_by_name name rows) ≡ routed r =
        sym (ap (routed_to s inbound rows) named) ∙ q in
      IsGranted-found s inbound rows name (find (is_named a name) ds) r refl
        (ap (route_of s inbound rows) (sym here) ∙ go)
