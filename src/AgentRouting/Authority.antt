-- ===== src/AgentRouting/Authority.antt =====
-- Which messages between agents are sent.
use aimclaw.Base.{
  ℕ, String, str_eq, str_eq_iff, ◌≡◌, ◌⊎◌, refl, true, Option, none, some, any, arith, Bool-cases,
  Option-cases, inl, inr,
}
use aimclaw.Sessions.{Session}
use aimclaw.AgentRouting.{
  Office, RoutableAgentMessage, Files, sent, perform_agent_route, has_agent_destination,
  get_message_policy, route_agent_message, route_to, gated, given, AgentMessagePolicy,
}
use aimclaw.AgentRouting.Landing.{LandsIn, perform_agent_route-LandsIn}

-- The message may go to the agent group: the source's own, or one that the source has a destination for and that
-- no policy guards
abbrev pub MayReach : Session → String → Office → Type 0
MayReach source target o =
    (target ≡ source.agent_group_id)
    ⊎ ((has_agent_destination source.agent_group_id target o.destinations ≡ true)
        × (get_message_policy source.agent_group_id target o.policies ≡ none))

pub given_text : (t : Option String) (s : String) → given t ≡ some s → t ≡ some s
given_text none s e = cc
given_text (some t) s e = ground arith

module _ (now : ℕ) (id new_id : String) (files : Files) (msg : RoutableAgentMessage)
    (source : Session) (target : String) where
  gated-open :
      (sid : String) (o o' : Office) (policy : Option AgentMessagePolicy)
      → gated now id new_id files msg source target o policy ≡ (sent sid, o')
      → (policy ≡ none)
        × (perform_agent_route now id new_id files msg source target o ≡ (sent sid, o'))
  gated-open sid o o' none e = (refl, e)
  gated-open sid o o' (some p) e = cc

  route_to-MayReach :
      (sid : String) (o o' : Office)
      → route_to now id new_id files msg source target o ≡ (sent sid, o')
      → MayReach source target o
        × (any (λ g. str_eq g target) o.agent_groups ≡ true)
        × LandsIn id source target sid o o'
  route_to-MayReach sid o o' e =
      let known : any (λ g. str_eq g target) o.agent_groups ≡ true = ground arith in
      elim (Bool-cases (str_eq target source.agent_group_id)) [
        | inl self ↦
            let go : perform_agent_route now id new_id files msg source target o ≡ (sent sid, o') =
              ground arith in
            (
              inl (ground (arith, str_eq_iff target source.agent_group_id)),
              known,
              perform_agent_route-LandsIn now id new_id files msg source target sid o o' go,
            )
        | inr n ↦
            let has : has_agent_destination source.agent_group_id target o.destinations ≡ true =
              ground arith in
            let policy = get_message_policy source.agent_group_id target o.policies in
            let go : gated now id new_id files msg source target o policy ≡ (sent sid, o') =
              ground arith in
            let (free, went) = gated-open sid o o' policy go in
            (
              inr (has, free),
              known,
              perform_agent_route-LandsIn now id new_id files msg source target sid o o' went,
            )
      ]

module _ (now : ℕ) (id new_id : String) (files : Files) (msg : RoutableAgentMessage)
    (source : Session) where
  -- A message that is sent had a target, an agent group that exists: the source's own, or one that the source has a
  -- destination for and whose edge no policy guards. Its row stands, under the id drawn for it, in the inbound table
  -- of a session of the table that is active and of that group, names the session and the group that it is
  -- from, and wakes the agent; the inbound table of no other session changes.
  pub route_agent_message-MayReach :
      (sid : String) (o o' : Office)
      → route_agent_message now id new_id files msg source o ≡ (sent sid, o')
      → (target : String) × ((msg.platform_id ≡ some target)
          × MayReach source target o
          × (any (λ g. str_eq g target) o.agent_groups ≡ true)
          × LandsIn id source target sid o o')
  unfolding route_agent_message
  route_agent_message-MayReach sid o o' e = elim (Option-cases (given msg.platform_id)) [
    | inl none_given ↦ ground arith
    | inr (target, is_given) ↦
        let go : route_to now id new_id files msg source target o ≡ (sent sid, o') = ground arith in
        let (may, known, lands) =
          route_to-MayReach now id new_id files msg source target sid o o' go in
        (target, (given_text msg.platform_id target is_given, may, known, lands))
  ]
