-- ===== src/Permissions.antt =====
-- Roles and memberships in the central database: modules/permissions/db and access.ts. Foreign keys
-- are on: a row that names a missing user or group is refused, and `none` says that the call throws.
pub mod Integrity
pub mod Access
pub mod Revoke
pub mod Approvers
pub mod Senders
use aimclaw.Base.{
  ℕ, String, str_eq, is_text, Bool, true, false, not, ◌&&◌, ◌||◌, Option, none, some, List, [], ◌∷◌,
  ◌++◌, any, filter, update_where, if◌then◌else◌,
}

pub data RoleKind : Type 0 where
  owner admin : RoleKind

pub record User : Type 0 where
  pub id : String
  pub kind : String
  pub display_name : Option String
  pub created_at : ℕ

pub record UserRole : Type 0 where
  pub user_id : String
  pub role : RoleKind
  pub agent_group_id : Option String
  pub granted_by : Option String
  pub granted_at : ℕ

pub record AgentGroupMember : Type 0 where
  pub user_id : String
  pub agent_group_id : String
  pub added_by : Option String
  pub added_at : ℕ

pub record Central : Type 0 where
  pub users : List User
  pub agent_groups : List String
  pub roles : List UserRole
  pub members : List AgentGroupMember

abbrev pub has_user : Central → String → Bool
has_user db id = any (λ u. str_eq u.id id) db.users

abbrev pub has_group : Central → String → Bool
has_group db id = any (λ g. str_eq g id) db.agent_groups

-- A foreign key that may be NULL.
abbrev pub refers : (String → Bool) → Option String → Bool
refers known none = true
refers known (some id) = known id

abbrev merge_name : Option String → Option String → Option String
merge_name none old = old
merge_name (some n) old = some n

unfoldable pub upsert_user : User → Central → Central
upsert_user user db =
    if has_user db user.id
    then record db {
      users =
          update_where (λ u. str_eq u.id user.id)
            (λ u. record u { display_name = merge_name user.display_name u.display_name }) db.users;
    }
    else record db { users = db.users ++ user ∷ [] }

abbrev pub is_owner_role : RoleKind → Bool
is_owner_role owner = true
is_owner_role admin = false

abbrev pub same_role : RoleKind → RoleKind → Bool
same_role owner r = is_owner_role r
same_role admin r = not (is_owner_role r)

abbrev pub is_null : Option String → Bool
is_null none = true
is_null (some s) = false

-- `agent_group_id IS NULL` or `agent_group_id = ?`
abbrev pub same_scope : Option String → Option String → Bool
same_scope none scope = is_null scope
same_scope (some g) scope = is_text scope g

abbrev pub is_role : String → RoleKind → Option String → UserRole → Bool
is_role user role scope row =
    str_eq row.user_id user && (same_role role row.role && same_scope scope row.agent_group_id)

-- In a primary key NULL differs from NULL, so only scoped roles clash.
abbrev clashes : UserRole → UserRole → Bool
clashes row r =
    not (is_null row.agent_group_id) && is_role row.user_id row.role row.agent_group_id r

abbrev pub role_refers : Central → UserRole → Bool
role_refers db row =
    has_user db row.user_id
    && (refers (has_group db) row.agent_group_id && refers (has_user db) row.granted_by)

unfoldable pub grant_role : UserRole → Central → Option Central
grant_role row db =
    if is_owner_role row.role && not (is_null row.agent_group_id)
    then none
    else if any (clashes row) db.roles || not (role_refers db row)
    then none
    else some (record db { roles = db.roles ++ row ∷ [] })

unfoldable pub revoke_role : String → RoleKind → Option String → Central → Central
revoke_role user role scope db = record db {
  roles = filter (λ r. not (is_role user role scope r)) db.roles;
}

unfoldable pub is_owner : Central → String → Bool
is_owner db user = any (is_role user owner none) db.roles

unfoldable pub is_global_admin : Central → String → Bool
is_global_admin db user = any (is_role user admin none) db.roles

unfoldable pub is_admin_of_agent_group : Central → String → String → Bool
is_admin_of_agent_group db user group = any (is_role user admin (some group)) db.roles

unfoldable pub has_admin_privilege : Central → String → String → Bool
unfolding is_owner is_global_admin is_admin_of_agent_group
has_admin_privilege db user group =
    is_owner db user || (is_global_admin db user || is_admin_of_agent_group db user group)

unfoldable pub has_any_owner : Central → Bool
has_any_owner db = any (λ r. is_owner_role r.role && is_null r.agent_group_id) db.roles

abbrev pub is_membership : String → String → AgentGroupMember → Bool
is_membership user group m = str_eq m.user_id user && str_eq m.agent_group_id group

abbrev pub member_refers : Central → AgentGroupMember → Bool
member_refers db row =
    has_user db row.user_id
    && (has_group db row.agent_group_id && refers (has_user db) row.added_by)

unfoldable pub has_membership_row : Central → String → String → Bool
has_membership_row db user group = any (is_membership user group) db.members

-- INSERT OR IGNORE: a row that is there is kept, and a missing reference still throws.
unfoldable pub add_member : AgentGroupMember → Central → Option Central
unfolding has_membership_row
add_member row db =
    if has_membership_row db row.user_id row.agent_group_id
    then some db
    else if member_refers db row
    then some (record db { members = db.members ++ row ∷ [] })
    else none

unfoldable pub remove_member : String → String → Central → Central
remove_member user group db = record db {
  members = filter (λ m. not (is_membership user group m)) db.members;
}

unfoldable pub is_member : Central → String → String → Bool
unfolding is_owner is_global_admin is_admin_of_agent_group has_membership_row
is_member db user group =
    if is_owner db user || (is_global_admin db user || is_admin_of_agent_group db user group)
    then true
    else has_membership_row db user group

pub data AccessDecision : Type 0 where
  by_owner by_global_admin by_admin_of_group by_member unknown_user not_member : AccessDecision

abbrev pub is_allowed : AccessDecision → Bool
is_allowed unknown_user = false
is_allowed not_member = false
is_allowed _ = true

unfoldable pub can_access_agent_group : Central → String → String → AccessDecision
unfolding is_owner is_global_admin is_admin_of_agent_group is_member
can_access_agent_group db user group =
    if not (has_user db user)
    then unknown_user
    else if is_owner db user
    then by_owner
    else if is_global_admin db user
    then by_global_admin
    else if is_admin_of_agent_group db user group
    then by_admin_of_group
    else if is_member db user group
    then by_member
    else not_member
