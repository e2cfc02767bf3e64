-- ===== src/Delivery/Messages/Calls.antt =====
-- What `deliverMessage` may do: it leaves the table and the attempts alone, and calls the adapter once
-- at most, for a chat that the session may send to.
use aimclaw.Base.{
  String, str_eq, is_text, ◌&&◌, ◌||◌, ◌≡◌, ◌⊎◌, inl, inr, refl, Bool, Option, none, some, List, [],
  ◌∷◌, ◌++◌, Bool-cases, Option-cases,
}
use aimclaw.Json.{Json, Items, null, bool, num, str, arr, obj, Content, raw, json}
use aimclaw.Delivery.{MessageOut}
use aimclaw.Delivery.Questions.{PendingQuestion, get, track_question}
use aimclaw.Delivery.Messages.{
  Host, Session, Queue, Sent, MessagingGroup, set, target_of, send, call_for, track, deliver_to,
  deliver_nowhere, to_channel, to_agent, files_of, deliver_content, deliver_message, action_of,
  is_some, is_empty, handle_system_action, final_of, call_action,
}

-- A call for the message, through the instance of a chat that the session may send to.
abbrev pub IsCallFor : Host → Session → MessageOut → Sent → Type 0
IsCallFor h s msg c =
    (c.message ≡ msg.id)
    × ((g : MessagingGroup) × (target_of h s c.channel_type c.platform_id ≡ some g)
        × (c.instance ≡ g.instance))

abbrev pub Adds : Host → Session → MessageOut → Queue → Queue → Type 0
Adds h s msg q q' =
    (q'.sent ≡ q.sent) ⊎ ((c : Sent) × (q'.sent ≡ q.sent ++ c ∷ []) × IsCallFor h s msg c)

abbrev pub Keeps : Host → Session → MessageOut → Queue → Queue → Type 0
Keeps h s msg q q' = (q'.delivered ≡ q.delivered) × (q'.attempts ≡ q.attempts) × Adds h s msg q q'

module _ (h : Host) (s : Session) (msg : MessageOut) (q : Queue) where
  Keeps-same : Keeps h s msg q q
  Keeps-same = (refl, refl, inl refl)

  Keeps-call_action :
      (f : Option (Json → Bool)) (content : Json) → Keeps h s msg q (call_action f content q).queue
  Keeps-call_action none content = Keeps-same
  Keeps-call_action (some f) content = elim (Bool-cases (f content)) [
    | inl e ↦ rw e Keeps-same
    | inr e ↦ rw e Keeps-same
  ]

  Keeps-system : (content : Json) → Keeps h s msg q (handle_system_action h content q).queue
  unfolding handle_system_action
  Keeps-system null = Keeps-same
  Keeps-system (bool b) = Keeps-call_action (action_of h (get "action" (bool b))) (bool b)
  Keeps-system (num n) = Keeps-call_action (action_of h (get "action" (num n))) (num n)
  Keeps-system (str t) = Keeps-call_action (action_of h (get "action" (str t))) (str t)
  Keeps-system (arr xs) = Keeps-call_action (action_of h (get "action" (arr xs))) (arr xs)
  Keeps-system (obj fs) = Keeps-call_action (action_of h (get "action" (obj fs))) (obj fs)

  Keeps-agent : Keeps h s msg q (to_agent h msg q).queue
  Keeps-agent = elim (Bool-cases (is_some h.destinations && h.route_agent msg)) [
    | inl e ↦ rw e Keeps-same
    | inr e ↦ rw e Keeps-same
  ]

  Keeps-nowhere : (content : Json) → Keeps h s msg q (deliver_nowhere h s msg content q).queue
  unfolding track_question
  Keeps-nowhere content = elim (Option-cases (final_of h content msg)) [
    | inl e ↦ rw (e, deliver_nowhere) Keeps-same
    | inr (none, e) ↦
        rw (e, deliver_nowhere)
          (elim (Option-cases (track h s msg content q)) [
            | inl f ↦ rw f Keeps-same
            | inr (qs, f) ↦ rw f Keeps-same
          ])
    | inr (some id, e) ↦ rw (e, deliver_nowhere) Keeps-same
  ]

module _ (h : Host) (s : Session) (msg : MessageOut) (q : Queue) (channel platform : String)
    (g : MessagingGroup) where
  Keeps-send :
      (files : Items) (qs : List PendingQuestion)
      → target_of h s channel platform ≡ some g
      → Keeps h s msg q
          (send h msg files (call_for msg g channel platform) (record q { questions = qs })).queue
  Keeps-send files qs t = elim (Bool-cases (is_empty files || h.files msg files)) [
    | inl e ↦ rw e (refl, refl, inr (call_for msg g channel platform, refl, (refl, (g, t, refl))))
    | inr e ↦ rw e (refl, refl, inl refl)
  ]

  Keeps-permitted :
      (content : Json)
      → target_of h s channel platform ≡ some g
      → Keeps h s msg q (deliver_to h s msg content channel platform q).queue
  unfolding track_question
  Keeps-permitted content t =
      rw (t, deliver_to)
        (elim (Option-cases (final_of h content msg)) [
          | inl e ↦ rw e (Keeps-same h s msg q)
          | inr (none, e) ↦ rw e (elim (Option-cases (track h s msg content q)) [
            | inl f ↦ rw f (Keeps-same h s msg q)
            | inr (qs, f) ↦ rw f (Keeps-send (files_of (get "files" content)) qs t)
          ])
          | inr (some id, e) ↦ rw e (Keeps-same h s msg q)
        ])

module _ (h : Host) (s : Session) (msg : MessageOut) (q : Queue) where
  Keeps-to :
      (content : Json) (channel platform : String)
      → Keeps h s msg q (deliver_to h s msg content channel platform q).queue
  Keeps-to content channel platform = elim (Option-cases (target_of h s channel platform)) [
    | inl e ↦ rw (e, deliver_to) (Keeps-same h s msg q)
    | inr (g, e) ↦ Keeps-permitted h s msg q channel platform g content e
  ]

  Keeps-address :
      (content : Json) (channel platform : Option String)
      → Keeps h s msg q (to_channel h s msg content channel platform q).queue
  Keeps-address null channel platform = Keeps-same h s msg q
  Keeps-address content (some channel) (some platform) = Keeps-to content channel platform
  Keeps-address content channel platform = Keeps-nowhere h s msg q content

  Keeps-content : (c : Content) → Keeps h s msg q (deliver_content h s msg c q).queue
  Keeps-content (raw text) = Keeps-same h s msg q
  Keeps-content (json content) = elim (Bool-cases (str_eq msg.kind "system")) [
    | inl e ↦ rw e (Keeps-system h s msg q content)
    | inr e ↦ rw e (elim (Bool-cases (is_text msg.channel_type "agent")) [
      | inl f ↦ rw f (Keeps-agent h s msg q)
      | inr f ↦ rw f (Keeps-address content (set msg.channel_type) (set msg.platform_id))
    ])
  ]

  pub deliver_message-Keeps : Keeps h s msg q (deliver_message h s msg q).queue
  unfolding deliver_message
  deliver_message-Keeps = elim (Bool-cases h.has_adapter) [
    | inl e ↦ rw e (Keeps-content msg.content)
    | inr e ↦ rw e (Keeps-same h s msg q)
  ]
