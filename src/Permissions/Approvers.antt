-- ===== src/Permissions/Approvers.antt =====
-- Who may be asked to approve: `pickApprover` of modules/approvals/primitive.ts.
use aimclaw.Base.{
  String, str_eq, str_eq_iff, str_eq_refl, ◌≡◌, ◌≢◌, refl, ◌∙◌, Bool, false, ◌&&◌, ◌||◌, Option,
  none, some, List, [], ◌∷◌, ◌++◌, any, filter, leb, if◌then◌else◌, arith, Bool-cases, inl, inr,
}
use aimclaw.Permissions.{
  Central, UserRole, RoleKind, owner, admin, is_role, same_role, same_scope, has_admin_privilege,
}

-- ORDER BY granted_at; rows of one instant keep their order
insert_asc : UserRole → List UserRole → List UserRole
insert_asc r [] = r ∷ []
insert_asc r (s ∷ ss) = if leb r.granted_at s.granted_at then r ∷ s ∷ ss else s ∷ insert_asc r ss

order_asc : List UserRole → List UserRole
order_asc [] = []
order_asc (r ∷ rs) = insert_asc r (order_asc rs)

-- `getAdminsOfAgentGroup`, `getGlobalAdmins` and `getOwners`
unfoldable pub get_holders : RoleKind → Option String → Central → List UserRole
unfolding insert_asc order_asc
get_holders role scope db =
    order_asc (filter (λ r. same_role role r.role && same_scope scope r.agent_group_id) db.roles)

abbrev pub contains : String → List String → Bool
contains id ids = any (λ x. str_eq x id) ids

abbrev pub add_once : List String → String → List String
add_once ids id = if contains id ids then ids else ids ++ id ∷ []

unfoldable pub add_all : List String → List UserRole → List String
add_all ids [] = ids
add_all ids (r ∷ rs) = add_all (add_once ids r.user_id) rs

abbrev scoped_admins : Option String → Central → List UserRole
scoped_admins none db = []
scoped_admins (some group) db = if str_eq group "" then [] else get_holders admin (some group) db

unfoldable pub pick_approver : Option String → Central → List String
unfolding get_holders add_all
pick_approver group db =
    add_all (add_all (add_all [] (scoped_admins group db)) (get_holders admin none db))
      (get_holders owner none db)

abbrev held_by : String → UserRole → Bool
held_by user r = str_eq r.user_id user

any-insert_asc :
    (p : UserRole → Bool) (r : UserRole) (rs : List UserRole)
    → any p (insert_asc r rs) ≡ (p r || any p rs)
unfolding insert_asc
any-insert_asc p r [] = refl
any-insert_asc p r (s ∷ ss) = ground (arith, any-insert_asc p r ss)

any-order_asc : (p : UserRole → Bool) (rs : List UserRole) → any p (order_asc rs) ≡ any p rs
unfolding order_asc
any-order_asc p [] = refl
any-order_asc p (r ∷ rs) = ground (arith, any-insert_asc p r (order_asc rs), any-order_asc p rs)

any-filter :
    (user : String) (role : RoleKind) (scope : Option String) (rs : List UserRole)
    → any
        (held_by user)
        (filter (λ r. same_role role r.role && same_scope scope r.agent_group_id) rs)
      ≡ any (is_role user role scope) rs
any-filter user role scope [] = refl
any-filter user role scope (r ∷ rs) = ground (arith, any-filter user role scope rs)

any-get_holders :
    (user : String) (role : RoleKind) (scope : Option String) (db : Central)
    → any (held_by user) (get_holders role scope db) ≡ any (is_role user role scope) db.roles
unfolding get_holders
any-get_holders user role scope db =
    any-order_asc (held_by user) _ ∙ any-filter user role scope db.roles

contains-append :
    (id : String) (xs ys : List String)
    → contains id (xs ++ ys) ≡ (contains id xs || contains id ys)
contains-append id [] ys = refl
contains-append id (x ∷ xs) ys = ground (arith, contains-append id xs ys)

contains-add_once :
    (id new : String) (ids : List String)
    → contains id (add_once ids new) ≡ (contains id ids || str_eq new id)
contains-add_once id new ids = elim (Bool-cases (str_eq new id)) [
  | inl e ↦
      let same : new ≡ id = (str_eq_iff new id).0 e in
      rw same (ground (arith, contains-append id ids (id ∷ []), str_eq_refl id))
  | inr e ↦ ground (arith, contains-append id ids (new ∷ []))
]

contains-add_all :
    (id : String) (ids : List String) (rs : List UserRole)
    → contains id (add_all ids rs) ≡ (contains id ids || any (held_by id) rs)
unfolding add_all
contains-add_all id ids [] = ground arith
contains-add_all id ids (r ∷ rs) =
    contains-add_all id (add_once ids r.user_id) rs
    ∙ ground (arith, contains-add_once id r.user_id ids)

-- The users who are asked to approve for a group are exactly those with admin privilege over it.
pub contains-pick_approver :
    (user group : String) (db : Central)
    → group ≢ ""
    → contains user (pick_approver (some group) db) ≡ has_admin_privilege db user group
unfolding pick_approver has_admin_privilege
contains-pick_approver user group db n =
    let plain : str_eq group "" ≡ false = ground (arith, str_eq_iff group "") in
    ground (
      arith,
      contains-add_all user
          (add_all (add_all [] (scoped_admins (some group) db)) (get_holders admin none db))
          (get_holders owner none db),
      contains-add_all user (add_all [] (scoped_admins (some group) db))
          (get_holders admin none db),
      contains-add_all user [] (scoped_admins (some group) db),
      any-get_holders user owner none db,
      any-get_holders user admin none db,
      any-get_holders user admin (some group) db,
    )

abbrev pub HasNoRepeats : List String → Type 0
HasNoRepeats [] = Unit
HasNoRepeats (x ∷ xs) = (contains x xs ≡ false) × HasNoRepeats xs

HasNoRepeats-concat :
    (id : String) (ids : List String)
    → HasNoRepeats ids
    → contains id ids ≡ false
    → HasNoRepeats (ids ++ id ∷ [])
HasNoRepeats-concat id [] h e = (refl, tt)
HasNoRepeats-concat id (x ∷ xs) (p, h) e = (
  ground (arith, contains-append x xs (id ∷ []), str_eq_iff id x, str_eq_iff x id),
  HasNoRepeats-concat id xs h (ground arith),
)

HasNoRepeats-add_all :
    (ids : List String) (rs : List UserRole) → HasNoRepeats ids → HasNoRepeats (add_all ids rs)
unfolding add_all
HasNoRepeats-add_all ids [] h = h
HasNoRepeats-add_all ids (r ∷ rs) h =
    HasNoRepeats-add_all (add_once ids r.user_id) rs (elim (Bool-cases (contains r.user_id ids)) [
      | inl e ↦ rw e h
      | inr e ↦ rw e (HasNoRepeats-concat r.user_id ids h e)
    ])

-- Nobody is asked twice, also with several roles.
pub pick_approver-HasNoRepeats :
    (group : Option String) (db : Central) → HasNoRepeats (pick_approver group db)
unfolding pick_approver
pick_approver-HasNoRepeats group db =
    let scoped = add_all [] (scoped_admins group db) in
    HasNoRepeats-add_all (add_all scoped (get_holders admin none db)) (get_holders owner none db) (
      HasNoRepeats-add_all scoped (get_holders admin none db)
        (HasNoRepeats-add_all [] (scoped_admins group db) tt))
