-- ===== src/AgentRouting/Release.antt =====
-- What a held message does when it is approved.
use aimclaw.Base.{
  ℕ, String, str_eq, ◌≡◌, ◌≢◌, refl, sym, ap, ◌∙◌, true, Option, none, some, List, any, arith,
  Bool-cases, inl, inr,
}
use aimclaw.Json.{Content}
use aimclaw.SessionDb.{MessageIn, insert_message}
use aimclaw.Sessions.{Session, Resolved}
use aimclaw.AgentRouting.{
  Office, RoutableAgentMessage, Files, held, a2a_message, written, write_to, perform_agent_route,
  resolve_target_session, has_agent_destination, get_message_policy, route_agent_message, route_to,
  gated, given, AgentMessagePolicy, forward_file_attachments, Payload, payload_of, released_to,
  apply_a2a_message_gate,
}
use aimclaw.AgentRouting.Authority.{given_text}

module _ (now : ℕ) (id new_id : String) (files : Files) (msg : RoutableAgentMessage)
    (source : Session) (target : String) where
  written-sends :
      (approver session : String) (payload : Payload) (o o' : Office)
      (rows : Option (List MessageIn))
      → written session o rows ≢ (held approver payload, o')
  written-sends approver session payload o o' none e = cc
  written-sends approver session payload o o' (some rows) e = cc

  write_to-sends :
      (approver : String) (payload : Payload) (r : Resolved) (o o' : Office)
      (content : Option Content)
      → write_to now id new_id files source r o content ≢ (held approver payload, o')
  write_to-sends approver payload r o o' none e = cc
  write_to-sends approver payload r o o' (some content) e =
      written-sends approver r.session.id payload (record o { sessions = r.sessions }) o'
        (insert_message (o.inbound r.session.id) (a2a_message now id source (files.stored content)))
        e

  perform_agent_route-sends :
      (approver : String) (payload : Payload) (o o' : Office)
      → perform_agent_route now id new_id files msg source target o ≢ (held approver payload, o')
  unfolding perform_agent_route
  perform_agent_route-sends approver payload o o' e =
      write_to-sends approver payload (resolve_target_session now new_id msg source target o) o o'
        (forward_file_attachments files msg.content) e

  gated-held :
      (approver : String) (payload : Payload) (o o' : Office) (policy : Option AgentMessagePolicy)
      → gated now id new_id files msg source target o policy ≡ (held approver payload, o')
      → (payload ≡ payload_of msg target) × (o' ≡ o)
  gated-held approver payload o o' none e =
      elim (perform_agent_route-sends approver payload o o' e) [ ]
  gated-held approver payload o o' (some p) e = (cc, cc)

  route_to-held :
      (approver : String) (payload : Payload) (o o' : Office)
      → route_to now id new_id files msg source target o ≡ (held approver payload, o')
      → (payload ≡ payload_of msg target) × (o' ≡ o)
  route_to-held approver payload o o' e =
      let no_self = perform_agent_route-sends approver payload o o' in
      let policy = get_message_policy source.agent_group_id target o.policies in
      let go : gated now id new_id files msg source target o policy ≡ (held approver payload, o') =
        ground arith in
      gated-held approver payload o o' policy go

module _ (now : ℕ) (id new_id : String) (files : Files) (msg : RoutableAgentMessage)
    (source : Session) where
  -- On an edge that is allowed and without a policy, sending is performAgentRoute.
  route_to-open :
      (target : String) (o : Office)
      → has_agent_destination source.agent_group_id target o.destinations ≡ true
      → any (λ g. str_eq g target) o.agent_groups ≡ true
      → get_message_policy source.agent_group_id target o.policies ≡ none
      → route_to now id new_id files msg source target o
        ≡ perform_agent_route now id new_id files msg source target o
  route_to-open target o has known free = elim (Bool-cases (str_eq target source.agent_group_id)) [
    | inl self ↦ rw (route_to, self, known) refl
    | inr n ↦ rw (route_to, n, has, known, free, gated) refl
  ]

module _ (now : ℕ) (id new_id : String) (files : Files) (msg : RoutableAgentMessage)
    (source : Session) (target : String) (is_given : given msg.platform_id ≡ some target) where
  route_agent_message-route_to :
      (o : Office)
      → route_agent_message now id new_id files msg source o
        ≡ route_to now id new_id files msg source target o
  unfolding route_agent_message
  route_agent_message-route_to o = rw (is_given, route_agent_message) refl

-- The approval of a held message sends that message: its payload, given to the approve handler at any later time, does
-- exactly what routing the message then would, where its edge has lost its policy, and the destination and the
-- agent group are still there. The holding itself changes nothing.
pub route_agent_message-released :
    (now : ℕ) (id new_id : String) (files : Files) (msg : RoutableAgentMessage) (source : Session)
    (target approver : String) (payload : Payload) (o o' : Office)
    → given msg.platform_id ≡ some target
    → route_agent_message now id new_id files msg source o ≡ (held approver payload, o')
    → (later : Office) (now' : ℕ) (id' new_id' drawn : String)
    → has_agent_destination source.agent_group_id target later.destinations ≡ true
    → any (λ g. str_eq g target) later.agent_groups ≡ true
    → get_message_policy source.agent_group_id target later.policies ≡ none
    → (o' ≡ o)
      × (apply_a2a_message_gate now' id' new_id' files drawn payload source later
          ≡ route_agent_message now' id' new_id' files msg source later)
unfolding apply_a2a_message_gate
route_agent_message-released now id new_id files msg source target approver payload o o' is_given e
      later now' id' new_id' drawn has known free =
    let at = given_text msg.platform_id target is_given in
    let again : given (some target) ≡ some target = ap given (sym at) ∙ is_given in
    let (what, unchanged) =
      route_to-held now id new_id files msg source target approver payload o o'
        (sym (route_agent_message-route_to now id new_id files msg source target is_given o) ∙ e) in
    (
      unchanged,
      rw what (
            ap (released_to now' id' new_id' files drawn (payload_of msg target) source later)
              again)
          ∙ sym (
              route_agent_message-route_to now' id' new_id' files msg source target is_given later
              ∙ route_to-open now' id' new_id' files msg source target later has known free),
    )
