-- ===== src/Delivery/Messages/Authorized.antt =====
-- Where a session's messages may go.
use mathlib.Core.List.{Memᴰ}
use mathlib.Core.Path.{subst}
use aimclaw.Base.{
  String, str_eq, str_eq_iff, is_text, ◌≡◌, ◌⊎◌, inl, inr, refl, sym, ap, ◌∙◌, true, ◌&&◌, Option,
  none, some, List, [], ◌∷◌, ◌++◌, All, All-append, find-Mem, arith, Bool-cases,
}
use aimclaw.Wirings.{preferred, is_preferred, get_messaging_group_by_platform}
use aimclaw.Delivery.{MessageOut}
use aimclaw.Delivery.Messages.{
  Host, Session, Queue, Sent, MessagingGroup, target_of, permit, origin_or, get_messaging_group,
  has_destination, attempt, attempt_all, note, note_failure, deliver_message, drain_session,
  undelivered,
}
use aimclaw.Delivery.Messages.Calls.{IsCallFor, deliver_message-Keeps}

-- The chat's address and instance are those of a known chat, which is the session's own, or one that a row of
-- agent_destinations allows to its agent group; without that table every chat is allowed.
abbrev pub IsAuthorized : Host → Session → Sent → Type 0
IsAuthorized h s c =
    (g : MessagingGroup) × Memᴰ g h.groups
    × (g.channel_type ≡ c.channel_type)
    × (g.platform_id ≡ c.platform_id)
    × (g.instance ≡ c.instance)
    × ((is_text s.messaging_group_id g.id ≡ true)
        ⊎ (has_destination h.destinations s.agent_group_id g.id ≡ true))

-- a chat of the table, at the address
abbrev IsAt : List MessagingGroup → String → String → MessagingGroup → Type 0
IsAt gs channel platform g = Memᴰ g gs × (g.channel_type ≡ channel) × (g.platform_id ≡ platform)

preferred-cases :
    (g : MessagingGroup) (o : Option MessagingGroup)
    → (preferred g o ≡ g) ⊎ (o ≡ some (preferred g o))
unfolding get_messaging_group_by_platform
preferred-cases g none = inl refl
preferred-cases g (some h) = elim (Bool-cases (is_preferred g h)) [
  | inl e ↦ inl (ground arith)
  | inr e ↦ inr (ground arith)
]

-- The row is at the address that it was compared with.
IsAt-address :
    (gs : List MessagingGroup) (channel platform : String) (x g : MessagingGroup)
    → Memᴰ x gs
    → (str_eq x.channel_type channel && str_eq x.platform_id platform) ≡ true
    → x ≡ g
    → IsAt gs channel platform g
IsAt-address gs channel platform x g m t e =
    subst (λ y. IsAt gs channel platform y) e
      (
        m,
        (str_eq_iff x.channel_type channel).0 (ground arith),
        (str_eq_iff x.platform_id platform).0 (ground arith),
      )

IsAt-tail :
    (x : MessagingGroup) (gs : List MessagingGroup) (channel platform : String) (g : MessagingGroup)
    → IsAt gs channel platform g
    → IsAt (x ∷ gs) channel platform g
IsAt-tail x gs channel platform g (m, a, b) = (Memᴰ.tail m, a, b)

by_platform-IsAt :
    (channel platform : String) (gs : List MessagingGroup) (g : MessagingGroup)
    → get_messaging_group_by_platform channel platform gs ≡ some g
    → IsAt gs channel platform g
unfolding get_messaging_group_by_platform
by_platform-IsAt channel platform [] g e = cc
by_platform-IsAt channel platform (x ∷ gs) g e =
    let rest = get_messaging_group_by_platform channel platform gs in
    elim (Bool-cases (str_eq x.channel_type channel && str_eq x.platform_id platform)) [
      | inl t ↦
          let chosen : preferred x rest ≡ g = ground arith in
          elim (preferred-cases x rest) [
            | inl same ↦
                IsAt-address (x ∷ gs) channel platform x g (Memᴰ.head refl) t (sym same ∙ chosen)
            | inr later ↦
                IsAt-tail x gs channel platform g
                  (by_platform-IsAt channel platform gs g (later ∙ ap some chosen))
          ]
      | inr f ↦
          IsAt-tail x gs channel platform g (by_platform-IsAt channel platform gs g (ground arith))
    ]

get_messaging_group-Mem :
    (h : Host) (id : Option String) (g : MessagingGroup)
    → get_messaging_group h id ≡ some g
    → Memᴰ g h.groups
get_messaging_group-Mem h none g e = cc
get_messaging_group-Mem h (some id) g e = find-Mem (λ x. str_eq x.id id) h.groups g (ground arith)

origin_or-IsAt :
    (gs : List MessagingGroup) (origin other : Option MessagingGroup) (channel platform : String)
    (g : MessagingGroup)
    → ((x : MessagingGroup) → origin ≡ some x → Memᴰ x gs)
    → ((x : MessagingGroup) → other ≡ some x → IsAt gs channel platform x)
    → origin_or origin channel platform other ≡ some g
    → IsAt gs channel platform g
origin_or-IsAt gs none other channel platform g m at e = at g e
origin_or-IsAt gs (some x) other channel platform g m at e =
    elim (Bool-cases (str_eq x.channel_type channel && str_eq x.platform_id platform)) [
      | inl t ↦ IsAt-address gs channel platform x g (m x refl) t (ground arith)
      | inr f ↦ at g (ground arith)
    ]

permit-lem :
    (h : Host) (s : Session) (o : Option MessagingGroup) (g : MessagingGroup)
    → permit h s o ≡ some g
    → (o ≡ some g)
      × ((is_text s.messaging_group_id g.id ≡ true)
          ⊎ (has_destination h.destinations s.agent_group_id g.id ≡ true))
permit-lem h s none g e = cc
permit-lem h s (some x) g e = (ground arith, ground arith)

target_of-lem :
    (h : Host) (s : Session) (channel platform : String) (g : MessagingGroup)
    → target_of h s channel platform ≡ some g
    → IsAt h.groups channel platform g
      × ((is_text s.messaging_group_id g.id ≡ true)
          ⊎ (has_destination h.destinations s.agent_group_id g.id ≡ true))
unfolding target_of
target_of-lem h s channel platform g e =
    let (found, allowed) = permit-lem h s _ g e in
    (
      origin_or-IsAt h.groups (get_messaging_group h s.messaging_group_id)
          (get_messaging_group_by_platform channel platform h.groups) channel platform g
          (get_messaging_group-Mem h s.messaging_group_id)
          (by_platform-IsAt channel platform h.groups) found,
      allowed,
    )

call-IsAuthorized :
    (h : Host) (s : Session) (msg : MessageOut) (c : Sent)
    → IsCallFor h s msg c
    → IsAuthorized h s c
call-IsAuthorized h s msg c (same, (g, t, i)) =
    let ((m, a, b), allowed) = target_of-lem h s c.channel_type c.platform_id g t in
    (g, m, a, b, sym i, allowed)

-- The calls that a step adds are authorized.
abbrev pub AddsAuthorized : Host → Session → Queue → Queue → Type 0
AddsAuthorized h s q q' = (new : List Sent) × (q'.sent ≡ q.sent ++ new) × All (IsAuthorized h s) new

sent-note :
    (h : Host) (msg : MessageOut) (q : Queue) (r : Option (Option String))
    → (note h msg q r).sent ≡ q.sent
unfolding note_failure
sent-note h msg q none = ground arith
sent-note h msg q (some id) = ground arith

append_nil : (xs : List Sent) → xs ++ [] ≡ xs
append_nil [] = refl
append_nil (x ∷ xs) = ap (λ t. x ∷ t) (append_nil xs)

attempt-AddsAuthorized :
    (h : Host) (s : Session) (msg : MessageOut) (q : Queue)
    → AddsAuthorized h s q (attempt h s msg q)
unfolding attempt
attempt-AddsAuthorized h s msg q =
    let a = deliver_message h s msg q in
    let (d, n, adds) = deliver_message-Keeps h s msg q in
    let same = sent-note h msg a.queue a.result in
    elim adds [
      | inl e ↦ ([], same ∙ (e ∙ sym (append_nil q.sent)), tt)
      | inr (c, e, call) ↦ (c ∷ [], same ∙ e, (call-IsAuthorized h s msg c call, tt))
    ]

append_assoc : (xs ys zs : List Sent) → (xs ++ ys) ++ zs ≡ xs ++ (ys ++ zs)
append_assoc [] ys zs = refl
append_assoc (x ∷ xs) ys zs = ap (λ t. x ∷ t) (append_assoc xs ys zs)

attempt_all-AddsAuthorized :
    (h : Host) (s : Session) (msgs : List MessageOut) (q : Queue)
    → AddsAuthorized h s q (attempt_all h s msgs q)
unfolding attempt_all
attempt_all-AddsAuthorized h s [] q = ([], sym (append_nil q.sent), tt)
attempt_all-AddsAuthorized h s (msg ∷ msgs) q =
    let (xs, e, a) = attempt-AddsAuthorized h s msg q in
    let (ys, f, b) = attempt_all-AddsAuthorized h s msgs (attempt h s msg q) in
    (
      xs ++ ys,
      f ∙ (ap (λ t. t ++ ys) e ∙ append_assoc q.sent xs ys),
      All-append (IsAuthorized h s) xs ys a b,
    )

-- A drain hands messages only to chats that the session may send to, each through the instance of that chat.
-- The calls made before stay as they were.
pub drain_session-AddsAuthorized :
    (h : Host) (s : Session) (rows : List MessageOut) (q : Queue)
    → AddsAuthorized h s q (drain_session h s rows q)
unfolding drain_session
drain_session-AddsAuthorized h s rows q = attempt_all-AddsAuthorized h s (undelivered h rows q) q
