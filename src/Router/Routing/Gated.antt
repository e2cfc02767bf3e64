-- ===== src/Router/Routing/Gated.antt =====
-- The router together with the gates of the permissions module.
use aimclaw.Base.{
  String, ◌≡◌, ◌⊎◌, inl, inr, refl, sym, ◌∙◌, Bool, true, false, Option, some, List, ◌∷◌, ◌++◌, All,
  All-weaken, arith, Bool-cases,
}
use aimclaw.Json.{Json}
use aimclaw.Wirings.{MessagingGroup, MessagingGroupAgent}
use aimclaw.Permissions.{Central}
use aimclaw.Permissions.Integrity.{IsConsistent}
use aimclaw.Permissions.Access.{
  access_gate, sender_scope_gate, SenderScope, known, all, UnknownSenderPolicy, passes, is_public,
  is_known_sender, gates_lem,
}
use aimclaw.Router.{Effect, write_message, wake, Host, Stamped}
use aimclaw.Router.Routing.{FanOutState, stamped_for, fan_out}
use aimclaw.Router.Routing.Due.{engages, own, may_wake}
use aimclaw.Router.Routing.FanOut.{IsDue, fan_out-IsDue}
use aimclaw.Router.Routing.Tables.{KeepsConsistent, stamped_for-IsConsistent, fan_out-IsConsistent}

-- The hooks of the router are the gates of the permissions module.
abbrev pub UsesGates : Host → Option String → Type 0
UsesGates h user =
    (c : Central) (mg : MessagingGroup) (agent : MessagingGroupAgent)
    → (h.access c mg agent.agent_group_id
        ≡ passes (access_gate c mg.unknown_sender_policy user agent.agent_group_id))
      × (h.scope c agent ≡ sender_scope_gate c agent.sender_scope user agent.agent_group_id)

abbrev pub is_for_known : SenderScope → Bool
is_for_known known = true
is_for_known _ = false

gates_let_known :
    (db : Central) (policy : UnknownSenderPolicy) (scope : SenderScope) (user : Option String)
    (group : String)
    → IsConsistent db
    → passes (access_gate db policy user group) ≡ true
    → sender_scope_gate db scope user group ≡ true
    → ((is_public policy ≡ true) × (is_for_known scope ≡ false))
      ⊎ (is_known_sender db user group ≡ true)
gates_let_known db policy known user group c a s =
    inr (sym (gates_lem db policy user group c).1 ∙ s)
gates_let_known db policy all user group c a s = elim (Bool-cases (is_public policy)) [
  | inl e ↦ inl (e, refl)
  | inr e ↦ inr (ground (arith, (gates_lem db policy user group c).0))
]

module _ (h : Host) (is_mention : Bool) (user : Option String) (mg : MessagingGroup)
    (text : Json) where
  -- The session is the one that an agent of the list finds or makes in its own round, one of that agent's group,
  -- and the sender is known in that very group, in the tables that the resolver leaves in that round, where the
  -- chat is not public or the wiring is for known senders only.
  abbrev pub IsLetTo : List MessagingGroupAgent → FanOutState → String → Type 0
  IsLetTo agents f id =
      (before : List MessagingGroupAgent) × (agent : MessagingGroupAgent) × (after : List
        MessagingGroupAgent)
      × (agents ≡ before ++ agent ∷ after)
      × (let g = fan_out h is_mention user mg text before f in
          let session = (own h is_mention user mg text agent g).session in
          (s : Stamped) × (stamped_for h user agent g.stamped
              (engages h is_mention user mg text agent g)
            ≡ some s)
          × (session.id ≡ id)
          × (session.agent_group_id ≡ agent.agent_group_id)
          × (((is_public mg.unknown_sender_policy ≡ true)
                × (is_for_known agent.sender_scope ≡ false))
              ⊎ (is_known_sender s.central user agent.agent_group_id ≡ true)))

  -- A row, unless it does not wake the agent, and the wake itself
  abbrev pub IsFromKnown : List MessagingGroupAgent → FanOutState → Effect → Type 0
  IsFromKnown agents f (write_message id m) = (m.trigger ≡ some false) ⊎ IsLetTo agents f id
  IsFromKnown agents f (wake id) = IsLetTo agents f id
  IsFromKnown agents f _ = Unit

  module _ (gates : UsesGates h user) (keeps : KeepsConsistent h) where
    may_wake-known :
        (agent : MessagingGroupAgent) (g : FanOutState) (s : Stamped)
        → IsConsistent s.central
        → may_wake h is_mention user mg text agent g s ≡ true
        → ((is_public mg.unknown_sender_policy ≡ true) × (is_for_known agent.sender_scope ≡ false))
          ⊎ (is_known_sender s.central user agent.agent_group_id ≡ true)
    may_wake-known agent g s c e =
        let (a, b) = gates s.central mg agent in
        gates_let_known s.central mg.unknown_sender_policy agent.sender_scope user
          agent.agent_group_id c (ground arith) (ground arith)

    IsDue-IsFromKnown :
        (agents : List MessagingGroupAgent) (f : FanOutState)
        → IsConsistent f.stamped.central
        → (e : Effect) → IsDue h is_mention user mg text agents f e
        → IsFromKnown agents f e
    IsDue-IsFromKnown agents f c (write_message id m)
          (before, agent, after, parts, (s, made, group, (why, g, o))) =
        elim why [
          | inr (t, k) ↦ inl t
          | inl (t, w) ↦
              let at = fan_out h is_mention user mg text before f in
              let consistent =
                stamped_for-IsConsistent h is_mention user mg text keeps agent at.stamped s
                  (engages h is_mention user mg text agent at)
                  (fan_out-IsConsistent h is_mention user mg text keeps before f c) made in
              inr (
                before,
                agent,
                after,
                parts,
                (s, made, o, group, may_wake-known agent at s consistent w),
              )
        ]
    IsDue-IsFromKnown agents f c (wake id) (before, agent, after, parts, (s, made, group, (w, o))) =
        let at = fan_out h is_mention user mg text before f in
        let consistent =
          stamped_for-IsConsistent h is_mention user mg text keeps agent at.stamped s
            (engages h is_mention user mg text agent at)
            (fan_out-IsConsistent h is_mention user mg text keeps before f c) made in
        (before, agent, after, parts, (s, made, o, group, may_wake-known agent at s consistent w))
    IsDue-IsFromKnown agents f c _ d = tt

    -- With the gates of the permissions module as hooks, a message writes a row that wakes, or wakes, only the session
    -- of an agent in whose own group the sender is known, as the tables are when that agent's turn comes and the resolver
    -- has run for it, or the chat is public and that agent's wiring takes any sender. The session is the one that
    -- the agent's wiring finds or makes in its round. The tables are consistent before the loop, and the resolver
    -- keeps them so.
    pub fan_out-IsFromKnown :
        (agents : List MessagingGroupAgent) (f : FanOutState)
        → IsConsistent f.stamped.central
        → (new : List Effect) × ((fan_out h is_mention user mg text agents f).routed.effects
            ≡ f.routed.effects ++ new)
          × All (IsFromKnown agents f) new
    fan_out-IsFromKnown agents f c =
        let (new, e, d) = fan_out-IsDue h is_mention user mg text agents f in
        (
          new,
          e,
          All-weaken (IsDue h is_mention user mg text agents f) (IsFromKnown agents f) new
              (IsDue-IsFromKnown agents f c) d,
        )
