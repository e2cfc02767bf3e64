-- ===== src/Permissions/Senders.antt =====
-- The answer to the card for an unknown sender: `handleSenderApprovalResponse` of
-- modules/permissions/index.ts, over the table pending_sender_approvals.
pub mod Answers
use Prim.Native.String
use aimclaw.Base.{
  ℕ, String, str_eq, str_eq_iff, str_eq_refl, ◌≡◌, ◌≢◌, ◌⊎◌, refl, ap, Bool, true, false, not, ◌&&◌,
  ◌||◌, Option, none, some, List, [], ◌∷◌, ◌++◌, any, filter, find, if◌then◌else◌, arith,
  Bool-cases, Option-cases, inl, inr,
}
use text.Mathlib.Text.{find?}
use aimclaw.Json.{Content}
use aimclaw.Permissions.{
  Central, AgentGroupMember, has_user, member_refers, is_allowed, is_membership, has_membership_row,
  is_member, has_admin_privilege, add_member, can_access_agent_group,
}
use aimclaw.Permissions.Integrity.{IsConsistent, add_member-IsConsistent}
use aimclaw.Permissions.Access.{is_allowed-can_access_agent_group}

pub record PendingSenderApproval : Type 0 where
  pub id : String
  pub messaging_group_id : String
  pub agent_group_id : String
  pub sender_identity : String
  pub original_message : String
  pub approver_user_id : String

pub record ResponsePayload : Type 0 where
  pub question_id : String
  pub value : String
  pub user_id : Option String
  pub channel_type : String

pub record Cards : Type 0 where
  pub central : Central
  pub pending : List PendingSenderApproval

-- What the handler did. `replay` is the stored message that it hands to the router again; what goes wrong
-- from there on is caught.
pub record Answered : Type 0 where
  pub cards : Cards
  pub claimed : Bool
  pub replay : Option String

unfoldable pub get_pending_sender_approval :
    String → List PendingSenderApproval → Option PendingSenderApproval
get_pending_sender_approval id rows = find (λ r. str_eq r.id id) rows

unfoldable pub delete_pending_sender_approval :
    String → List PendingSenderApproval → List PendingSenderApproval
delete_pending_sender_approval id rows = filter (λ r. not (str_eq r.id id)) rows

abbrev includes : String → String → Bool
includes s t = elim (find? s t) [ none ↦ false | some i ↦ true ]

-- The id of the platform, with the channel before it unless it has a colon; null for a missing one.
unfoldable pub clicker_id : ResponsePayload → Option String
clicker_id payload = elim payload.user_id [
  | none ↦ none
  | some raw ↦
      if str_eq raw ""
      then none
      else if includes raw ":"
      then some raw
      else some (String.◌++◌ payload.channel_type (String.◌++◌ ":" raw))
]

unfoldable pub is_authorized : Central → PendingSenderApproval → Option String → Bool
is_authorized db row none = false
is_authorized db row (some clicker) =
    str_eq clicker row.approver_user_id || has_admin_privilege db clicker row.agent_group_id

abbrev pub drop_card : PendingSenderApproval → Cards → Cards
drop_card row cards = record cards { pending = delete_pending_sender_approval row.id cards.pending }

abbrev pub membership : ℕ → PendingSenderApproval → Option String → AgentGroupMember
membership now row approver = record {
  user_id = row.sender_identity;
  agent_group_id = row.agent_group_id;
  added_by = approver;
  added_at = now;
}

-- The part after the check of the clicker; `none` where `addMember` throws.
unfoldable pub resolve_card :
    ℕ → PendingSenderApproval → Option String → String → Cards → Option Answered
resolve_card now row approver value cards =
    if str_eq value "approve"
    then (elim (add_member (membership now row approver) cards.central) [
      | none ↦ none
      | some central ↦ some (record {
        cards = drop_card row (record cards { central = central });
        claimed = true;
        replay = some row.original_message;
      })
    ])
    else some (record { cards = drop_card row cards; claimed = true; replay = none })

abbrev pub unchanged : Bool → Cards → Option Answered
unchanged claimed cards = some (record { cards = cards; claimed = claimed; replay = none })

unfoldable pub handle_sender_approval_response : ℕ → ResponsePayload → Cards → Option Answered
unfolding get_pending_sender_approval clicker_id is_authorized resolve_card
handle_sender_approval_response now payload cards =
    elim (get_pending_sender_approval payload.question_id cards.pending) [
      | none ↦ unchanged false cards
      | some row ↦
          let clicker = clicker_id payload in
          if is_authorized cards.central row clicker
          then resolve_card now row clicker payload.value cards
          else unchanged true cards
    ]
