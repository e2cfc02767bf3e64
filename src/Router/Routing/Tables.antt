-- ===== src/Router/Routing/Tables.antt =====
-- The central tables during the loop over the wired agents: only the resolver of the request policy changes them.
use mathlib.Core.Path.{subst}
use aimclaw.Base.{
  String, ◌≡◌, inl, inr, refl, sym, ap, ◌∙◌, Bool, true, false, ◌&&◌, Option, none, some, List, [],
  ◌∷◌, arith, Bool-cases,
}
use aimclaw.Json.{Json}
use aimclaw.Wirings.{MessagingGroup, MessagingGroupAgent}
use aimclaw.Permissions.Integrity.{IsConsistent}
use aimclaw.Router.{Host, Stamped, InboundEvent}
use aimclaw.Router.Routing.{
  FanOutState, stamped_for, decide_stamped, decide, engage, subscribe_to, acknowledged,
  wants_subscription, count_engaged, deliver_to_agent, accumulates, attend, fan_out,
}
use aimclaw.Router.Routing.Due.{engages, threads, thread}
use aimclaw.Router.Routing.FanOut.{attend-cases}

-- The resolver leaves consistent tables consistent.
abbrev pub KeepsConsistent : Host → Type 0
KeepsConsistent h =
    (s s' : Stamped) (user : Option String) (group : String)
    → IsConsistent s.central
    → h.resolves s user group ≡ some s'
    → IsConsistent s'.central

subscribe_to-stamped :
    (wanted : Bool) (event : InboundEvent) (thread : Option String) (f : FanOutState)
    → (subscribe_to wanted event thread f).stamped ≡ f.stamped
subscribe_to-stamped wanted event none f = refl
subscribe_to-stamped true event (some t) f = refl
subscribe_to-stamped false event (some t) f = refl

acknowledged-stamped :
    (thread : Option String) (f : FanOutState) → (acknowledged thread f).stamped ≡ f.stamped
acknowledged-stamped thread f = elim (Bool-cases f.acknowledged) [
  | inl e ↦ rw e refl
  | inr e ↦ rw e refl
]

module _ (h : Host) (user : Option String) (mg : MessagingGroup) (agent : MessagingGroupAgent)
    (t : Bool) (th : Option String) (f : FanOutState) where
  engage-stamped : (engage h user mg agent t th f).stamped ≡ f.stamped
  unfolding deliver_to_agent
  engage-stamped =
      let g = acknowledged th f in
      let st = deliver_to_agent h f.stamped user mg agent t th true g.routed in
      elim (Bool-cases st.threw) [
        | inl e ↦ rw (e, engage) (acknowledged-stamped th f)
        | inr e ↦
            rw (e, engage)
              (subscribe_to-stamped (wants_subscription h mg agent g) f.stamped.event th
                  (count_engaged st g)
                ∙ acknowledged-stamped th f)
      ]

  decide-stamped : (b : Bool) → (decide h user mg agent t th b f).stamped ≡ f.stamped
  decide-stamped true =
      elim (Bool-cases
        (h.access f.stamped.central mg agent.agent_group_id && h.scope f.stamped.central agent)) [
          | inl a ↦ rw (decide, a) engage-stamped
          | inr a ↦
              let kept : decide h user mg agent t th true f ≡ f = ground arith in
              ap FanOutState.stamped kept
        ]
  decide-stamped false = elim (Bool-cases (accumulates agent.ignored_message_policy)) [
    | inl k ↦ rw (decide, k) refl
    | inr k ↦ rw (decide, k) refl
  ]

module _ (h : Host) (is_mention : Bool) (user : Option String) (mg : MessagingGroup) (text : Json)
    (keeps : KeepsConsistent h) where
  pub stamped_for-IsConsistent :
      (agent : MessagingGroupAgent) (s s' : Stamped) (b : Bool)
      → IsConsistent s.central
      → stamped_for h user agent s b ≡ some s'
      → IsConsistent s'.central
  stamped_for-IsConsistent agent s s' true c e = keeps s s' user agent.agent_group_id c e
  stamped_for-IsConsistent agent s s' false c e =
      let same : s ≡ s' = cc in subst (λ x. IsConsistent x.central) same c

  decide_stamped-IsConsistent :
      (agent : MessagingGroupAgent) (f : FanOutState) (t : Bool) (th : Option String) (b : Bool)
      (answer : Option Stamped)
      → IsConsistent f.stamped.central
      → stamped_for h user agent f.stamped b ≡ answer
      → IsConsistent (decide_stamped h user mg agent t th b f answer).stamped.central
  decide_stamped-IsConsistent agent f t th b none c e = c
  decide_stamped-IsConsistent agent f t th b (some s) c e =
      subst (λ x. IsConsistent x.central)
        (sym (decide-stamped h user mg agent t th (record f { stamped = s }) b))
        (stamped_for-IsConsistent agent f.stamped s b c e)

  attend-IsConsistent :
      (agent : MessagingGroupAgent) (f : FanOutState)
      → IsConsistent f.stamped.central
      → IsConsistent (attend h is_mention user mg text agent f).stamped.central
  attend-IsConsistent agent f c = elim (attend-cases h is_mention user mg text agent f) [
    | inl e ↦ rw e c
    | inr e ↦
        let b = engages h is_mention user mg text agent f in
        rw e (
          decide_stamped-IsConsistent agent f (threads h is_mention user mg text agent f)
            (thread h is_mention user mg text agent f) b (stamped_for h user agent f.stamped b) c
            refl)
  ]

  pub fan_out-IsConsistent :
      (agents : List MessagingGroupAgent) (f : FanOutState)
      → IsConsistent f.stamped.central
      → IsConsistent (fan_out h is_mention user mg text agents f).stamped.central
  unfolding fan_out
  fan_out-IsConsistent [] f c = c
  fan_out-IsConsistent (agent ∷ agents) f c =
      fan_out-IsConsistent agents (attend h is_mention user mg text agent f)
        (attend-IsConsistent agent f c)
