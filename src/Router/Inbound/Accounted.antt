-- ===== src/Router/Inbound/Accounted.antt =====
-- What becomes of a message that addresses the bot.
use aimclaw.Base.{
  ◌+◌, ◌<◌, String, ◌≡◌, ◌⊎◌, inl, inr, refl, sym, ap, ◌∙◌, true, false, Option, none, some, List,
  [], ◌∷◌, ◌++◌, length, ◌==◌, arith, Bool-cases, Option-cases,
}
use aimclaw.Sessions.{Session}
use aimclaw.Wirings.{
  MessagingGroup, MessagingGroupAgent, get_messaging_group_agents, get_messaging_group_of_instance,
}
use aimclaw.Router.{InboundEvent, Host}
use aimclaw.Router.Routing.{FanOutState, fan_out}
use aimclaw.Router.Inbound.{
  Arrival, Inbound, Dropped, message_text, unwired, finish, fresh_fan, slack_host, wired, in_group,
  new_group, instance_of, instance_or, route_prepared, prepared, enable_slack_typing_thread,
  is_intercepted, route_inbound, dropped_as, no_agent_wired, no_agent_engaged,
}

-- One row of dropped_messages.
abbrev IsRecorded : Inbound → Type 0
IsRecorded r = (d : Dropped) × (r.drops ≡ d ∷ [])

-- An agent engaged, or kept the message.
abbrev IsTaken : Inbound → Type 0
IsTaken r = (f : FanOutState) × (r.fan ≡ some f) × (0 < f.engaged + f.accumulated)

abbrev pub IsAccounted : Inbound → Type 0
IsAccounted r = (r.threw ≡ true) ⊎ (IsRecorded r ⊎ IsTaken r)

-- The owner denied the chat of the event, the one in the table under its address and adapter instance.
abbrev pub IsDenied : InboundEvent → List MessagingGroup → Type 0
IsDenied e groups =
    (mg : MessagingGroup) × (get_messaging_group_of_instance e.channel_type e.platform_id
        (instance_of e) groups
      ≡ some mg)
    × (mg.is_denied ≡ true)

is_mention-prepared :
    (h : Host) (a : Arrival) (event : InboundEvent)
    → (prepared h a event).is_mention ≡ event.is_mention
unfolding enable_slack_typing_thread
is_mention-prepared h a event = ground arith

same_address :
    (h : Host) (a : Arrival) (event : InboundEvent)
    → ((prepared h a event).channel_type ≡ event.channel_type)
      × ((prepared h a event).platform_id ≡ event.platform_id)
      × ((prepared h a event).instance ≡ event.instance)
unfolding enable_slack_typing_thread
same_address h a event = (ground arith, ground arith, ground arith)

same_chat :
    (h : Host) (a : Arrival) (event : InboundEvent) (groups : List MessagingGroup)
    → let p = prepared h a event in
      get_messaging_group_of_instance p.channel_type p.platform_id (instance_of p) groups
      ≡ get_messaging_group_of_instance event.channel_type event.platform_id
          (instance_of event)
          groups
same_chat h a event groups =
    let p = prepared h a event in
    let (c, q, i) = same_address h a event in
    let at = λ (c q : String) (i : Option String).
      get_messaging_group_of_instance c q (instance_or i c) groups in
    ap (λ x. at x p.platform_id p.instance) c
    ∙ (ap (λ x. at event.channel_type x p.instance) q
        ∙ ap (at event.channel_type event.platform_id) i)

module _ (h : Host) (a : Arrival) (e : InboundEvent) (mention : e.is_mention ≡ true) where
  unwired-IsAccounted :
      (mg : MessagingGroup) (groups : List MessagingGroup)
      → IsAccounted (unwired a e mg groups) ⊎ (mg.is_denied ≡ true)
  unwired-IsAccounted mg groups = elim (Bool-cases mg.is_denied) [
    | inl d ↦ inr d
    | inr d ↦ elim (Option-cases (message_text e.content)) [
      | inl t ↦ inl (inl (ground arith))
      | inr (text, t) ↦ inl (inr (inl (dropped_as no_agent_wired none mg, ground arith)))
    ]
  ]

  finish-IsAccounted :
      (mg : MessagingGroup) (groups : List MessagingGroup) (f : FanOutState)
      → IsAccounted (finish a.sender mg groups f)
  finish-IsAccounted mg groups f = elim (Bool-cases f.routed.threw) [
    | inl t ↦ inl (ground arith)
    | inr t ↦ elim (Bool-cases (f.engaged + f.accumulated == 0)) [
      | inl z ↦ inr (inl (dropped_as no_agent_engaged a.sender mg, ground arith))
      | inr z ↦ inr (inr (f, ground arith, ground arith))
    ]
  ]

  wired-IsAccounted :
      (mg : MessagingGroup) (agents : List MessagingGroupAgent) (sessions : List Session)
      (groups : List MessagingGroup)
      → IsAccounted (wired h a e mg agents sessions groups)
  wired-IsAccounted mg agents sessions groups = elim (Option-cases (message_text e.content)) [
    | inl t ↦ inl (ground arith)
    | inr (text, t) ↦
        rw (wired, t)
          (finish-IsAccounted mg groups (
            fan_out (slack_host e h) e.is_mention a.sender mg text agents (fresh_fan h e sessions)))
  ]

  in_group-IsAccounted :
      (mg : MessagingGroup) (agents : List MessagingGroupAgent) (sessions : List Session)
      (groups : List MessagingGroup)
      → IsAccounted (in_group h a e mg agents sessions groups) ⊎ (mg.is_denied ≡ true)
  in_group-IsAccounted mg agents sessions groups = elim (Bool-cases (length agents == 0)) [
    | inl z ↦ rw z (unwired-IsAccounted mg groups)
    | inr z ↦ rw z (inl (wired-IsAccounted mg agents sessions groups))
  ]

  in_new_chat :
      (r : Inbound) (mg : MessagingGroup) (groups : List MessagingGroup)
      → mg.is_denied ≡ false
      → IsAccounted r ⊎ (mg.is_denied ≡ true)
      → IsAccounted r ⊎ IsDenied e groups
  in_new_chat r mg groups d (inl x) = inl x
  in_new_chat r mg groups d (inr x) = cc

  in_known_chat :
      (r : Inbound) (mg : MessagingGroup)
      → IsAccounted r ⊎ (mg.is_denied ≡ true)
      → IsAccounted r ⊎ ((g : MessagingGroup) × (some mg ≡ some g) × (g.is_denied ≡ true))
  in_known_chat r mg (inl x) = inl x
  in_known_chat r mg (inr x) = inr (mg, refl, x)

  route_prepared_new :
      (groups : List MessagingGroup) (wirings : List MessagingGroupAgent) (sessions : List Session)
      → get_messaging_group_of_instance e.channel_type e.platform_id (instance_of e) groups ≡ none
      → route_prepared h a e groups wirings sessions
        ≡ unwired a e (new_group a e (instance_of e)) (groups ++ new_group a e (instance_of e) ∷ [])
  route_prepared_new groups wirings sessions n = ground arith

  route_prepared-IsAccounted :
      (groups : List MessagingGroup) (wirings : List MessagingGroupAgent) (sessions : List Session)
      → IsAccounted (route_prepared h a e groups wirings sessions) ⊎ IsDenied e groups
  route_prepared-IsAccounted groups wirings sessions =
      elim (Option-cases
        (get_messaging_group_of_instance e.channel_type e.platform_id (instance_of e) groups)) [
          | inl n ↦
              let mg = new_group a e (instance_of e) in
              rw (route_prepared_new groups wirings sessions n) (
                in_new_chat (unwired a e mg (groups ++ mg ∷ [])) mg groups refl
                  (unwired-IsAccounted mg (groups ++ mg ∷ [])))
          | inr (mg, s) ↦
              rw (route_prepared, s)
                (in_known_chat
                  (in_group h a e mg (get_messaging_group_agents mg.id wirings) sessions groups) mg
                  (in_group-IsAccounted mg (get_messaging_group_agents mg.id wirings) sessions
                    groups))
        ]

-- A message that addresses the bot, and that no interceptor takes, is accounted for: a row of dropped_messages
-- records it, or the loop counts an agent that engages or keeps it, as it does one whose command the command
-- gate filters without a word, or the routing throws, unless the owner denied the chat of the message itself.
pub route_inbound-IsAccounted :
    (h : Host) (a : Arrival) (event : InboundEvent) (groups : List MessagingGroup)
    (wirings : List MessagingGroupAgent) (sessions : List Session)
    → event.is_mention ≡ true
    → is_intercepted a event ≡ false
    → IsAccounted (route_inbound h a event groups wirings sessions) ⊎ IsDenied event groups
unfolding route_inbound
route_inbound-IsAccounted h a event groups wirings sessions m i =
    rw i
      (elim (route_prepared-IsAccounted h a (prepared h a event) (is_mention-prepared h a event ∙ m)
        groups wirings sessions) [
          | inl x ↦ inl x
          | inr (mg, found, d) ↦ inr (mg, sym (same_chat h a event groups) ∙ found, d)
        ])
