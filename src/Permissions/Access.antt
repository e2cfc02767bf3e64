-- ===== src/Permissions/Access.antt =====
-- Who may talk to an agent group: `canAccessAgentGroup`, and the two gates that
-- modules/permissions/index.ts registers with the router.
use aimclaw.Base.{
  String, str_eq, str_eq_iff, ◌≡◌, ◌≢◌, ◌⊎◌, refl, Bool, true, false, not, ◌&&◌, ◌||◌, Option, none,
  some, List, [], ◌∷◌, All, any, if◌then◌else◌, arith, Bool-cases, inl, inr,
}
use aimclaw.Permissions.{
  Central, UserRole, AgentGroupMember, RoleKind, owner, admin, AccessDecision, unknown_user,
  is_allowed, has_user, member_refers, is_role, is_membership, is_member, can_access_agent_group,
}
use aimclaw.Permissions.Integrity.{IsSound, IsConsistent}

has_user_of_role :
    (db : Central) (user : String) (role : RoleKind) (scope : Option String) (roles : List UserRole)
    → All (IsSound db) roles
    → any (is_role user role scope) roles ≡ true
    → has_user db user ≡ true
has_user_of_role db user role scope [] h e = cc
has_user_of_role db user role scope (r ∷ rs) ((p, _), h) e =
    elim (Bool-cases (str_eq r.user_id user)) [
      | inl same ↦
          let eq : r.user_id ≡ user = (str_eq_iff r.user_id user).0 same in rw (← eq) (ground arith)
      | inr other ↦ has_user_of_role db user role scope rs h (ground arith)
    ]

has_user_of_member :
    (db : Central) (user group : String) (members : List AgentGroupMember)
    → All (λ m. member_refers db m ≡ true) members
    → any (is_membership user group) members ≡ true
    → has_user db user ≡ true
has_user_of_member db user group [] h e = cc
has_user_of_member db user group (m ∷ ms) (p, h) e = elim (Bool-cases (str_eq m.user_id user)) [
  | inl same ↦
      let eq : m.user_id ≡ user = (str_eq_iff m.user_id user).0 same in rw (← eq) (ground arith)
  | inr other ↦ has_user_of_member db user group ms h (ground arith)
]

-- In consistent tables access is membership: the owners, the admins of all groups or of this one, and the
-- users with a membership row, and no user beside these.
pub is_allowed-can_access_agent_group :
    (db : Central) (user group : String)
    → IsConsistent db
    → is_allowed (can_access_agent_group db user group) ≡ is_member db user group
unfolding can_access_agent_group
is_allowed-can_access_agent_group db user group c = ground (
  arith,
  has_user_of_role db user owner none db.roles c.roles_refer,
  has_user_of_role db user admin none db.roles c.roles_refer,
  has_user_of_role db user admin (some group) db.roles c.roles_refer,
  has_user_of_member db user group db.members c.members_refer,
)

pub data UnknownSenderPolicy : Type 0 where
  strict request_approval public : UnknownSenderPolicy

-- The outcome of the access gate. A refusal says whether it wrote a row of dropped_messages, and for
-- which sender it requested an approval.
pub data Gate : Type 0 where
  pass : Gate
  refuse : (reason : AccessDecision) (dropped : Bool) (ask : Option String) → Gate

-- `handleUnknownSender`
unfoldable pub handle_unknown_sender : UnknownSenderPolicy → Option String → AccessDecision → Gate
handle_unknown_sender strict user reason = refuse reason true none
handle_unknown_sender request_approval user reason = refuse reason true user
handle_unknown_sender public user reason = refuse reason false none

abbrev decide : Central → UnknownSenderPolicy → String → String → Gate
decide db policy user group =
    let decision = can_access_agent_group db user group in
    if is_allowed decision then pass else handle_unknown_sender policy (some user) decision

-- `!userId` holds of null and of the empty text.
unfoldable pub access_gate : Central → UnknownSenderPolicy → Option String → String → Gate
unfolding handle_unknown_sender
access_gate db public user group = pass
access_gate db policy none group = handle_unknown_sender policy none unknown_user
access_gate db policy (some user) group =
    if str_eq user ""
    then handle_unknown_sender policy none unknown_user
    else decide db policy user group

pub data SenderScope : Type 0 where
  all known : SenderScope

unfoldable pub sender_scope_gate : Central → SenderScope → Option String → String → Bool
sender_scope_gate db all user group = true
sender_scope_gate db known none group = false
sender_scope_gate db known (some user) group =
    if str_eq user "" then false else is_allowed (can_access_agent_group db user group)

abbrev pub passes : Gate → Bool
passes pass = true
passes (refuse reason dropped ask) = false

-- The sender is identified, and a member of the group.
abbrev pub is_known_sender : Central → Option String → String → Bool
is_known_sender db none group = false
is_known_sender db (some user) group = not (str_eq user "") && is_member db user group

abbrev pub is_public : UnknownSenderPolicy → Bool
is_public public = true
is_public _ = false

-- In consistent tables the access gate lets a message through exactly when the chat is public or its sender
-- is a known member, and the stricter gate of a wiring for known senders exactly when its sender is one.
pub gates_lem :
    (db : Central) (policy : UnknownSenderPolicy) (user : Option String) (group : String)
    → IsConsistent db
    → (passes (access_gate db policy user group)
        ≡ (is_public policy || is_known_sender db user group))
      × (sender_scope_gate db known user group ≡ is_known_sender db user group)
unfolding access_gate sender_scope_gate
gates_lem db strict none group c = (refl, refl)
gates_lem db request_approval none group c = (refl, refl)
gates_lem db public none group c = (refl, refl)
gates_lem db strict (some user) group c =
    let same = is_allowed-can_access_agent_group db user group c in (ground arith, ground arith)
gates_lem db request_approval (some user) group c =
    let same = is_allowed-can_access_agent_group db user group c in (ground arith, ground arith)
gates_lem db public (some user) group c =
    let same = is_allowed-can_access_agent_group db user group c in (refl, ground arith)

-- A refusal is on record, and asks for an approval only of a sender with an id, in a chat whose policy is to
-- ask.
pub access_gate_refusal :
    (db : Central) (policy : UnknownSenderPolicy) (user : Option String) (group : String)
    (reason : AccessDecision) (dropped : Bool) (ask : Option String)
    → access_gate db policy user group ≡ refuse reason dropped ask
    → (dropped ≡ true)
      × (is_allowed reason ≡ false)
      × ((ask ≡ none) ⊎ ((policy ≡ request_approval) × (ask ≡ user) × (user ≢ some "")))
unfolding access_gate
access_gate_refusal db public user group reason dropped ask e = cc
access_gate_refusal db strict none group reason dropped ask e =
    (ground arith, ground arith, ground arith)
access_gate_refusal db request_approval none group reason dropped ask e =
    (ground arith, ground arith, ground arith)
access_gate_refusal db strict (some user) group reason dropped ask e =
    (ground arith, ground arith, ground arith)
access_gate_refusal db request_approval (some user) group reason dropped ask e =
    (ground arith, ground arith, ground (arith, str_eq_iff user ""))
