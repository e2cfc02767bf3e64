-- ===== src/Tests/People.antt =====
-- Roles, access and approvals.
use aimclaw.Base.{◌≡◌, refl, String, true, false, ◌||◌, none, some, [], ◌∷◌, ne_of_str_eq}
use aimclaw.Permissions.{
  Central, has_admin_privilege, add_member, can_access_agent_group, not_member,
}
use aimclaw.Permissions.Integrity.{IsConsistent}
use aimclaw.Permissions.Access.{
  request_approval, known, passes, is_known_sender, refuse, access_gate, sender_scope_gate,
  gates_lem,
}
use aimclaw.Permissions.Approvers.{contains, pick_approver, contains-pick_approver}
use aimclaw.Permissions.Senders.{
  PendingSenderApproval, ResponsePayload, Cards, Answered, delete_pending_sender_approval,
  resolve_card, handle_sender_approval_response,
}
use aimclaw.Tests.Samples.{team}

abbrev dan : String
dan = "slack:dan"

abbrev body : String
body = "{}"

pub team-IsConsistent : IsConsistent team
team-IsConsistent = record {
  roles_refer = ((refl, refl), ((refl, refl), tt));
  members_refer = (refl, tt);
}

approvers_test : pick_approver (some "g") team ≡ "slack:bob" ∷ "slack:ann" ∷ []
unfolding pick_approver
approvers_test = refl

contains-pick_approver_example :
    contains "slack:cat" (pick_approver (some "g") team) ≡ has_admin_privilege team "slack:cat" "g"
contains-pick_approver_example =
    contains-pick_approver "slack:cat" "g" team (ne_of_str_eq "g" "" refl)

gates_lem_example :
    (passes (access_gate team request_approval (some "slack:dan") "g")
      ≡ (false || is_known_sender team (some "slack:dan") "g"))
    × (sender_scope_gate team known (some "slack:dan") "g"
        ≡ is_known_sender team (some "slack:dan") "g")
gates_lem_example = gates_lem team request_approval (some "slack:dan") "g" team-IsConsistent

refusal_test :
    access_gate team request_approval (some "slack:dan") "g"
    ≡ refuse not_member true (some "slack:dan")
unfolding access_gate can_access_agent_group
refusal_test = refl

abbrev card : PendingSenderApproval
card = record {
  id = "nsa-1";
  messaging_group_id = "mg-1";
  agent_group_id = "g";
  sender_identity = "slack:dan";
  original_message = "{}";
  approver_user_id = "slack:bob";
}

abbrev cards : Cards
cards = record { central = team; pending = card ∷ [] }

-- Cat is a member, and may not answer.
abbrev by_cat : ResponsePayload
by_cat = record {
  question_id = "nsa-1";
  value = "approve";
  user_id = some "cat";
  channel_type = "slack";
}

refused_answer :
    handle_sender_approval_response 9 by_cat cards
    ≡ some (record { cards = cards; claimed = true; replay = none })
unfolding handle_sender_approval_response has_admin_privilege
refused_answer = refl

abbrev with_dan : Central
with_dan = record team {
  members =
      record {
        user_id = "slack:cat";
        agent_group_id = "g";
        added_by = some "slack:bob";
        added_at = 3;
      }
      ∷ record {
        user_id = "slack:dan";
        agent_group_id = "g";
        added_by = some "slack:bob";
        added_at = 9;
      }
      ∷ [];
}

abbrev approved : Answered
approved = record {
  cards = record { central = with_dan; pending = [] };
  claimed = true;
  replay = some "{}";
}

approved_test : resolve_card 9 card (some "slack:bob") "approve" cards ≡ some approved
unfolding resolve_card add_member delete_pending_sender_approval
approved_test = refl
