-- ===== src/Router/Routing/FanOut.antt =====
-- What the loop over the wired agents lets through.
use aimclaw.Base.{
  String, ◌≡◌, ◌⊎◌, inl, inr, refl, sym, ap, ◌∙◌, Bool, true, Option, none, some, List, [], ◌∷◌,
  ◌++◌, All, All-append, All-weaken, arith, Bool-cases,
}
use aimclaw.Json.{Json}
use aimclaw.Sessions.Resolve.{agent_group_id-resolve_session}
use aimclaw.Wirings.{MessagingGroup, MessagingGroupAgent}
use aimclaw.Router.{Effect, Host, Stamped, effective_mode}
use aimclaw.Router.Routing.{FanOutState, stamped_for, decide_stamped, attend, fan_out}
use aimclaw.Router.Routing.Due.{
  engages, threads, thread, own, IsDueTo, decide-Adds, append_nil, append_assoc,
}

module _ (h : Host) (is_mention : Bool) (user : Option String) (mg : MessagingGroup)
    (text : Json) where
  pub attend-cases :
      (agent : MessagingGroupAgent) (f : FanOutState)
      → (attend h is_mention user mg text agent f ≡ f)
        ⊎ (attend h is_mention user mg text agent f
            ≡ decide_stamped h user mg agent
                (threads h is_mention user mg text agent f)
                (thread h is_mention user mg text agent f)
                (engages h is_mention user mg text agent f)
                f
                (stamped_for h user agent f.stamped (engages h is_mention user mg text agent f)))
  unfolding attend
  attend-cases agent f = elim (Bool-cases f.routed.threw) [
    | inl e ↦ inl (ground arith)
    | inr e ↦ elim (Bool-cases (h.agent_exists agent.agent_group_id)) [
      | inl a ↦ inr (ground arith)
      | inr a ↦ inl (ground arith)
    ]
  ]

  -- The effect is due to the agent in the round that starts from `f`: `s` is what the resolver makes of the event
  -- and the tables there, and the session of the round is one of the agent's group.
  abbrev pub IsDueIn : MessagingGroupAgent → FanOutState → Effect → Type 0
  IsDueIn agent f e =
      (s : Stamped) × (stamped_for h user agent f.stamped
          (engages h is_mention user mg text agent f)
        ≡ some s)
      × ((own h is_mention user mg text agent f).session.agent_group_id ≡ agent.agent_group_id)
      × IsDueTo h is_mention user mg text agent f s e

  abbrev AddsIn : MessagingGroupAgent → FanOutState → FanOutState → Type 0
  AddsIn agent f g =
      (new : List Effect) × (g.routed.effects ≡ f.routed.effects ++ new) × All (IsDueIn agent f) new

  AddsIn-same :
      (agent : MessagingGroupAgent) (f g : FanOutState)
      → g.routed.effects ≡ f.routed.effects
      → AddsIn agent f g
  AddsIn-same agent f g e = ([], e ∙ sym (append_nil f.routed.effects), tt)

  own_group :
      (agent : MessagingGroupAgent) (f : FanOutState)
      → (own h is_mention user mg text agent f).session.agent_group_id ≡ agent.agent_group_id
  own_group agent f =
      agent_group_id-resolve_session h.now (h.new_id f.routed.draws) agent.agent_group_id
        (some mg.id) (thread h is_mention user mg text agent f)
        (effective_mode (threads h is_mention user mg text agent f) agent.session_mode)
        f.routed.sessions

  decide_stamped-AddsIn :
      (agent : MessagingGroupAgent) (f : FanOutState) (answer : Option Stamped)
      → stamped_for h user agent f.stamped (engages h is_mention user mg text agent f) ≡ answer
      → AddsIn agent f (
          decide_stamped h user mg agent
            (threads h is_mention user mg text agent f)
            (thread h is_mention user mg text agent f)
            (engages h is_mention user mg text agent f)
            f
            answer)
  decide_stamped-AddsIn agent f none e =
      AddsIn-same agent f (record f { routed = record f.routed { threw = true } }) refl
  decide_stamped-AddsIn agent f (some s) e =
      let (new, g, d) =
        decide-Adds h is_mention user mg text agent f s (engages h is_mention user mg text agent f)
          refl in
      (
        new,
        g,
        All-weaken (IsDueTo h is_mention user mg text agent f s) (IsDueIn agent f) new
            (λ x due. (s, e, own_group agent f, due)) d,
      )

  attend-AddsIn :
      (agent : MessagingGroupAgent) (f : FanOutState)
      → AddsIn agent f (attend h is_mention user mg text agent f)
  attend-AddsIn agent f = elim (attend-cases agent f) [
    | inl e ↦ rw e (AddsIn-same agent f f refl)
    | inr e ↦ rw e (
        decide_stamped-AddsIn agent f
          (stamped_for h user agent f.stamped (engages h is_mention user mg text agent f)) refl)
  ]

  -- The effect is due to one of the agents, in its own round of the loop: the one after the agents before it.
  abbrev pub IsDue : List MessagingGroupAgent → FanOutState → Effect → Type 0
  IsDue agents f e =
      (before : List MessagingGroupAgent) × (agent : MessagingGroupAgent) × (after : List
        MessagingGroupAgent)
      × (agents ≡ before ++ agent ∷ after)
      × IsDueIn agent (fan_out h is_mention user mg text before f) e

  IsDue-head :
      (agent : MessagingGroupAgent) (agents : List MessagingGroupAgent) (f : FanOutState)
      (e : Effect)
      → IsDueIn agent f e
      → IsDue (agent ∷ agents) f e
  unfolding fan_out
  IsDue-head agent agents f e d = ([], agent, agents, refl, d)

  IsDue-tail :
      (agent : MessagingGroupAgent) (agents : List MessagingGroupAgent) (f : FanOutState)
      (e : Effect)
      → IsDue agents (attend h is_mention user mg text agent f) e
      → IsDue (agent ∷ agents) f e
  unfolding fan_out
  IsDue-tail agent agents f e (before, a, after, parts, d) =
      (agent ∷ before, a, after, ap (λ t. agent ∷ t) parts, d)

  -- Whatever a message sets off at the agents of its chat is due to one of them, in that agent's own round of the
  -- loop: a row that wakes is for an agent that the message addresses and that the gates let the sender reach, as the
  -- tables are once the resolver has run for that agent, and a silent row for one that is not addressed and keeps
  -- context, both past the command gate, which reads the content that the resolver stamped. They, and the requests,
  -- typing and wakes beside them, are for the session that the agent's wiring finds or makes in the table as it
  -- stands before the round, which is one of the agent's group. Every other effect is for an agent that may be
  -- woken, or denies a command that the gate denies.
  pub fan_out-IsDue :
      (agents : List MessagingGroupAgent) (f : FanOutState)
      → (new : List Effect) × ((fan_out h is_mention user mg text agents f).routed.effects
          ≡ f.routed.effects ++ new)
        × All (IsDue agents f) new
  unfolding fan_out
  fan_out-IsDue [] f = ([], sym (append_nil f.routed.effects), tt)
  fan_out-IsDue (agent ∷ agents) f =
      let next = attend h is_mention user mg text agent f in
      let (xs, e, p) = attend-AddsIn agent f in
      let (ys, g, q) = fan_out-IsDue agents next in
      (
        xs ++ ys,
        g ∙ (ap (λ t. t ++ ys) e ∙ append_assoc f.routed.effects xs ys),
        All-append (IsDue (agent ∷ agents) f) xs ys
            (All-weaken (IsDueIn agent f) (IsDue (agent ∷ agents) f) xs (IsDue-head agent agents f)
              p)
            (All-weaken (IsDue agents next) (IsDue (agent ∷ agents) f) ys
              (IsDue-tail agent agents f) q),
      )
