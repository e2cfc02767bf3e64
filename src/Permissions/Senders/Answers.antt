-- ===== src/Permissions/Senders/Answers.antt =====
-- An approval opens the way.
use aimclaw.Base.{
  ℕ, String, str_eq_refl, ◌≡◌, refl, Bool, true, ◌||◌, Option, none, some, List, [], ◌∷◌, ◌++◌, any,
  arith, Option-cases, inl, inr,
}
use aimclaw.Permissions.{
  Central, AgentGroupMember, is_allowed, is_membership, has_membership_row, is_member, add_member,
  can_access_agent_group,
}
use aimclaw.Permissions.Integrity.{IsConsistent, add_member-IsConsistent}
use aimclaw.Permissions.Access.{is_allowed-can_access_agent_group}
use aimclaw.Permissions.Senders.{
  PendingSenderApproval, Cards, Answered, get_pending_sender_approval,
  delete_pending_sender_approval, membership, resolve_card,
}

any-append {ℓ} :
    {A : Type ℓ} (p : A → Bool) (xs ys : List A) → any p (xs ++ ys) ≡ (any p xs || any p ys)
any-append p [] ys = refl
any-append p (x ∷ xs) ys = ground (arith, any-append p xs ys)

has_membership_row-add_member :
    (row : AgentGroupMember) (db db' : Central)
    → add_member row db ≡ some db'
    → has_membership_row db' row.user_id row.agent_group_id ≡ true
unfolding add_member
has_membership_row-add_member row db db' e = ground (
  arith,
  any-append (is_membership row.user_id row.agent_group_id) db.members (row ∷ []),
  str_eq_refl row.user_id,
  str_eq_refl row.agent_group_id,
)

is_member_of_row :
    (db : Central) (user group : String)
    → has_membership_row db user group ≡ true
    → is_member db user group ≡ true
unfolding is_member
is_member_of_row db user group h = ground arith

find-deleted :
    (id : String) (rows : List PendingSenderApproval)
    → get_pending_sender_approval id (delete_pending_sender_approval id rows) ≡ none
unfolding get_pending_sender_approval delete_pending_sender_approval
find-deleted id [] = refl
find-deleted id (r ∷ rs) = ground (arith, find-deleted id rs)

-- In consistent tables, once a card is resolved by an approval, its sender may talk to the group, the
-- card is gone, and the message that it held is replayed.
pub approve_opens :
    (now : ℕ) (row : PendingSenderApproval) (clicker : Option String) (cards : Cards) (a : Answered)
    → IsConsistent cards.central
    → resolve_card now row clicker "approve" cards ≡ some a
    → (is_allowed (can_access_agent_group a.cards.central row.sender_identity row.agent_group_id)
        ≡ true)
      × (get_pending_sender_approval row.id a.cards.pending ≡ none)
      × (a.replay ≡ some row.original_message)
unfolding resolve_card
approve_opens now row clicker cards a c e =
    elim (Option-cases (add_member (membership now row clicker) cards.central)) [
      | inl thrown ↦ cc (rw thrown at e)
      | inr (db, added) ↦
          let ok = add_member-IsConsistent (membership now row clicker) cards.central db c added in
          let member =
            is_member_of_row db row.sender_identity row.agent_group_id
              (has_membership_row-add_member (membership now row clicker) cards.central db added) in
          let access =
            is_allowed-can_access_agent_group db row.sender_identity row.agent_group_id ok in
          let gone = find-deleted row.id cards.pending in ground arith
    ]
