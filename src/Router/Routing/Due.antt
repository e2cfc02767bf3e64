-- ===== src/Router/Routing/Due.antt =====
-- What an agent of the chat is due from a message, and that its round of the loop gives it no more.
use aimclaw.Base.{
  ◌+◌, String, ◌≡◌, ◌⊎◌, inl, inr, refl, sym, ap, ◌∙◌, Bool, true, false, not, ◌&&◌, Option, none,
  some, List, [], ◌∷◌, ◌++◌, str_eq, str_eq_iff, find-holds, All, All-append, arith, Bool-cases,
}
use aimclaw.Json.{Json}
use aimclaw.Sessions.{resolve_session, get_session, Session, Resolved}
use aimclaw.Wirings.{MessagingGroup, MessagingGroupAgent}
use aimclaw.CommandGate.{GateResult, pass, deny}
use aimclaw.Router.{
  DeliveryAddress, Effect, write_message, deny_command, record_requester, start_typing, stop_typing,
  wake, acknowledge, subscribe, Host, Stamped, evaluate_engage, message_for, address_of,
  message_id_for_agent, effective_mode,
}
use aimclaw.Router.Routing.{
  Routed, FanOutState, accumulates, gate_of, threads_of, thread_of, resolved_for, by_gate,
  wake_effects, wants_subscription, count_engaged, effects_of_write, write_or_throw,
  deliver_to_agent, acknowledged, subscribe_to, engage, decide,
}

pub append_nil : (xs : List Effect) → xs ++ [] ≡ xs
append_nil [] = refl
append_nil (x ∷ xs) = ap (λ t. x ∷ t) (append_nil xs)

pub append_assoc : (xs ys zs : List Effect) → (xs ++ ys) ++ zs ≡ xs ++ (ys ++ zs)
append_assoc [] ys zs = refl
append_assoc (x ∷ xs) ys zs = ap (λ t. x ∷ t) (append_assoc xs ys zs)

module _ (h : Host) (is_mention : Bool) (user : Option String) (mg : MessagingGroup) (text : Json)
    (agent : MessagingGroupAgent) (f : FanOutState) where
  abbrev pub threads : Bool
  threads = threads_of h mg agent

  abbrev pub thread : Option String
  thread = thread_of threads f.stamped.event

  abbrev pub engages : Bool
  engages = evaluate_engage h agent text is_mention mg thread f.routed.sessions

  -- The session that the agent's wiring finds or makes in the table as it stands before the round
  abbrev pub own : Resolved
  own = resolved_for h mg agent threads thread f.routed

module _ (h : Host) (is_mention : Bool) (user : Option String) (mg : MessagingGroup) (text : Json)
    (agent : MessagingGroupAgent) (f : FanOutState) (s : Stamped) where
  -- The agent is addressed, and both gates let the sender through.
  abbrev pub may_wake : Bool
  may_wake =
      engages h is_mention user mg text agent f
      && (h.access s.central mg agent.agent_group_id && h.scope s.central agent)

  -- The agent is not addressed, and keeps such messages as context.
  abbrev pub may_keep : Bool
  may_keep =
      accumulates agent.ignored_message_policy && not (engages h is_mention user mg text agent f)

  abbrev pub IsOwn : String → Type 0
  IsOwn id = (own h is_mention user mg text agent f).session.id ≡ id

  -- A row is due to the agent if it wakes an agent that may be woken, or does not wake one that keeps the
  -- message, and the command gate passes it. The effects beside a row are due to an agent that may be woken, and a
  -- reply that denies a command to a command that is denied. All are for the agent's own session.
  abbrev pub IsDueTo : Effect → Type 0
  IsDueTo (write_message id m) =
      (((m.trigger ≡ some true) × (may_wake ≡ true))
        ⊎ ((m.trigger ≡ some false) × (may_keep ≡ true)))
      × (gate_of h s user agent.agent_group_id ≡ pass)
      × IsOwn id
  IsDueTo (deny_command id address command) =
      (gate_of h s user agent.agent_group_id ≡ deny command) × IsOwn id
  IsDueTo (record_requester id m u) = (may_wake ≡ true) × (u ≡ user) × IsOwn id
  IsDueTo (start_typing id) = (may_wake ≡ true) × IsOwn id
  IsDueTo (stop_typing id) = (may_wake ≡ true) × IsOwn id
  IsDueTo (wake id) = (may_wake ≡ true) × IsOwn id
  IsDueTo (acknowledge _) = may_wake ≡ true
  IsDueTo (subscribe platform _) = may_wake ≡ true

  abbrev pub Adds : Routed → Routed → Type 0
  Adds st st' = (new : List Effect) × (st'.effects ≡ st.effects ++ new) × All IsDueTo new

  abbrev Permits : Bool → Type 0
  Permits wakes = ((wakes ≡ true) × (may_wake ≡ true)) ⊎ ((wakes ≡ false) × (may_keep ≡ true))

  abbrev IsFresh : String → Option Session → Type 0
  IsFresh id fresh = (x : Session) → fresh ≡ some x → x.id ≡ id

  effects_of_wake :
      (id : String) (fresh : Option Session)
      → may_wake ≡ true
      → IsOwn id
      → IsFresh id fresh
      → All IsDueTo (wake_effects h id fresh)
  effects_of_wake id none w o same = ((w, o), tt)
  effects_of_wake id (some fresh) w o same =
      let to : IsOwn fresh.id = o ∙ sym (same fresh refl) in
      elim (Bool-cases (h.wakes fresh.id)) [
        | inl e ↦ rw e ((w, o), ((w, to), tt))
        | inr e ↦ rw e ((w, o), ((w, to), ((w, to), tt)))
      ]

  get_session-IsFresh : (id : String) (rows : List Session) → IsFresh id (get_session id rows)
  get_session-IsFresh id rows x e =
      (str_eq_iff x.id id).0 (find-holds (λ s. str_eq s.id id) rows x e)

  effects_of_write-IsDueTo :
      (address : DeliveryAddress) (id : String) (wakes : Bool) (r : Resolved)
      → Permits wakes
      → gate_of h s user agent.agent_group_id ≡ pass
      → IsOwn r.session.id
      → All IsDueTo (effects_of_write h s.event user address id wakes r)
  effects_of_write-IsDueTo address id true r (inl (e, w)) g o = (
    (inl (refl, w), g, o),
    (
      (w, refl, o),
      effects_of_wake r.session.id (get_session r.session.id r.sessions) w o
          (get_session-IsFresh r.session.id r.sessions),
    ),
  )
  effects_of_write-IsDueTo address id true r (inr (e, w)) g o = cc
  effects_of_write-IsDueTo address id false r (inl (e, w)) g o = cc
  effects_of_write-IsDueTo address id false r (inr (e, w)) g o = ((inr (refl, w), g, o), tt)

  write-Adds :
      (address : DeliveryAddress) (id : String) (wakes : Bool) (r : Resolved) (st : Routed)
      → Permits wakes
      → gate_of h s user agent.agent_group_id ≡ pass
      → IsOwn r.session.id
      → Adds st (write_or_throw h s.event user address id wakes r st)
  write-Adds address id wakes r st ok g o =
      elim (Bool-cases (h.writes r.session.id (message_for s.event address id wakes))) [
        | inl e ↦ rw e (
          effects_of_write h s.event user address id wakes r,
          refl,
          effects_of_write-IsDueTo address id wakes r ok g o,
        )
        | inr e ↦ rw e ([], sym (append_nil st.effects), tt)
      ]

  by_gate-Adds :
      (gate : GateResult) (address : DeliveryAddress) (id : String) (wakes : Bool) (r : Resolved)
      (st : Routed)
      → Permits wakes
      → gate_of h s user agent.agent_group_id ≡ gate
      → IsOwn r.session.id
      → Adds st (by_gate gate h s.event user address id wakes r st)
  by_gate-Adds pass address id wakes r st ok g o = write-Adds address id wakes r st ok g o
  by_gate-Adds GateResult.filter address id wakes r st ok g o =
      ([], sym (append_nil st.effects), tt)
  by_gate-Adds (deny command) address id wakes r st ok g o =
      elim (Bool-cases (h.denies r.session.id)) [
        | inl e ↦ rw e (deny_command r.session.id address command ∷ [], refl, ((g, o), tt))
        | inr e ↦ rw e ([], sym (append_nil st.effects), tt)
      ]

  deliver-Adds :
      (wakes : Bool) (st : Routed)
      → Permits wakes
      → st.sessions ≡ f.routed.sessions
      → st.draws ≡ f.routed.draws
      → Adds st (
          deliver_to_agent h s user mg agent
            (threads h is_mention user mg text agent f)
            (thread h is_mention user mg text agent f)
            wakes
            st)
  unfolding deliver_to_agent
  deliver-Adds wakes st ok sessions draws =
      let t = threads h is_mention user mg text agent f in
      let th = thread h is_mention user mg text agent f in
      let r = resolved_for h mg agent t th st in
      by_gate-Adds (gate_of h s user agent.agent_group_id) (address_of s.event th)
        (message_id_for_agent (h.new_id (st.draws + 1)) s.event.id agent.agent_group_id) wakes r
        (record st { sessions = r.sessions; draws = st.draws + 2 }) ok refl
        (ap
            (λ rows.
              (resolve_session h.now (h.new_id f.routed.draws) agent.agent_group_id (some mg.id) th
                (effective_mode t agent.session_mode) rows).session.id)
            (sym sessions)
          ∙ ap
              (λ n.
                (resolve_session h.now (h.new_id n) agent.agent_group_id (some mg.id) th
                  (effective_mode t agent.session_mode) st.sessions).session.id)
              (sym draws))

  Adds-trans : (a b c : Routed) → Adds a b → Adds b c → Adds a c
  Adds-trans a b c (xs, e, p) (ys, g, q) = (
    xs ++ ys,
    g ∙ (ap (λ t. t ++ ys) e ∙ append_assoc a.effects xs ys),
    All-append IsDueTo xs ys p q,
  )

  pub Adds-same : (a : Routed) → Adds a a
  Adds-same a = ([], sym (append_nil a.effects), tt)

  acknowledged-Adds :
      (th : Option String) (g : FanOutState)
      → may_wake ≡ true
      → Adds g.routed (acknowledged th g).routed
  acknowledged-Adds th g w = elim (Bool-cases g.acknowledged) [
    | inl e ↦ rw e (Adds-same g.routed)
    | inr e ↦ rw e (acknowledge th ∷ [], refl, (w, tt))
  ]

  subscribe-Adds :
      (wanted : Bool) (th : Option String) (g : FanOutState)
      → may_wake ≡ true
      → Adds g.routed (subscribe_to wanted s.event th g).routed
  subscribe-Adds wanted none g w = Adds-same g.routed
  subscribe-Adds true (some t) g w = (subscribe s.event.platform_id t ∷ [], refl, (w, tt))
  subscribe-Adds false (some t) g w = Adds-same g.routed

  -- The round, once the resolver has answered
  abbrev stamped : FanOutState
  stamped = record f { stamped = s }

  acknowledged-keeps :
      (th : Option String) (g : FanOutState)
      → ((acknowledged th g).routed.sessions ≡ g.routed.sessions)
        × ((acknowledged th g).routed.draws ≡ g.routed.draws)
        × ((acknowledged th g).stamped ≡ g.stamped)
  acknowledged-keeps th g = elim (Bool-cases g.acknowledged) [
    | inl e ↦ rw e (refl, refl, refl)
    | inr e ↦ rw e (refl, refl, refl)
  ]

  engage-Adds :
      may_wake ≡ true
      → Adds f.routed
          (engage h user mg agent
            (threads h is_mention user mg text agent f)
            (thread h is_mention user mg text agent f)
            stamped).routed
  unfolding deliver_to_agent
  engage-Adds w =
      let t = threads h is_mention user mg text agent f in
      let th = thread h is_mention user mg text agent f in
      let g = acknowledged th stamped in
      let (sessions, draws, _) = acknowledged-keeps th stamped in
      let st = deliver_to_agent h s user mg agent t th true g.routed in
      let to =
        Adds-trans f.routed g.routed st (acknowledged-Adds th stamped w)
          (deliver-Adds true g.routed (inl (refl, w)) sessions draws) in
      elim (Bool-cases st.threw) [
        | inl e ↦ rw (e, engage) to
        | inr e ↦
            rw (e, engage)
              (Adds-trans f.routed st
                (subscribe_to (wants_subscription h mg agent g) s.event th
                  (count_engaged st g)).routed
                to (subscribe-Adds (wants_subscription h mg agent g) th (count_engaged st g) w))
      ]

  kept_out :
      (g : FanOutState) (t : Bool) (th : Option String)
      → (h.access g.stamped.central mg agent.agent_group_id && h.scope g.stamped.central agent)
        ≡ false
      → decide h user mg agent t th true g ≡ g
  kept_out g t th e = ground arith

  pub decide-Adds :
      (b : Bool)
      → engages h is_mention user mg text agent f ≡ b
      → Adds f.routed
          (decide h user mg agent
            (threads h is_mention user mg text agent f)
            (thread h is_mention user mg text agent f)
            b
            stamped).routed
  decide-Adds true e =
      elim (Bool-cases (h.access s.central mg agent.agent_group_id && h.scope s.central agent)) [
        | inl a ↦ rw (decide, a) (engage-Adds (rw (e, a) refl))
        | inr a ↦
            rw
              (kept_out stamped (threads h is_mention user mg text agent f)
                (thread h is_mention user mg text agent f) a)
              (Adds-same f.routed)
      ]
  decide-Adds false e = elim (Bool-cases (accumulates agent.ignored_message_policy)) [
    | inl k ↦ rw (decide, k) (deliver-Adds false f.routed (inr (refl, rw (k, e) refl)) refl refl)
    | inr k ↦ rw (decide, k) (Adds-same f.routed)
  ]
