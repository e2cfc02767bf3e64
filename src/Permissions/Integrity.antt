-- ===== src/Permissions/Integrity.antt =====
-- References stay intact, and owners stay global.
use aimclaw.Base.{
  String, str_eq, ◌≡◌, refl, Bool, true, false, not, ◌&&◌, ◌||◌, Option, none, some, List, [], ◌∷◌,
  ◌++◌, All, All-append, any, filter, update_where, arith, Bool-cases, inl, inr,
}
use mathlib.Core.Path.{subst, sym, ◌∙◌}
use aimclaw.Permissions.{
  Central, User, UserRole, AgentGroupMember, RoleKind, has_user, has_group, refers, role_refers,
  member_refers, is_owner_role, is_null, is_role, is_membership, upsert_user, grant_role,
  revoke_role, add_member, remove_member,
}

abbrev pub IsSound : Central → UserRole → Type 0
IsSound db r =
    (role_refers db r ≡ true) × ((is_owner_role r.role && not (is_null r.agent_group_id)) ≡ false)

-- Every role and membership names users and groups that exist, and no owner role has a scope.
pub record IsConsistent (db : Central) : Type 0 where
  pub roles_refer : All (IsSound db) db.roles
  pub members_refer : All (λ m. member_refers db m ≡ true) db.members

All-filter {ℓ κ} :
    {A : Type ℓ} (P : A → Type κ) (p : A → Bool) (xs : List A) → All P xs → All P (filter p xs)
All-filter P p [] h = tt
All-filter P p (x ∷ xs) (q, h) = elim (Bool-cases (p x)) [
  | inl e ↦ rw e (q, All-filter P p xs h)
  | inr e ↦ rw e (All-filter P p xs h)
]

grant_role-IsConsistent :
    (row : UserRole) (db db' : Central)
    → IsConsistent db
    → grant_role row db ≡ some db'
    → IsConsistent db'
unfolding grant_role
grant_role-IsConsistent row db db' c e =
    let sound : IsSound db row = (ground arith, ground arith) in
    let same : record db { roles = db.roles ++ row ∷ [] } ≡ db' = ground arith in
    rw (← same) (record {
      roles_refer = All-append (IsSound db) db.roles (row ∷ []) c.roles_refer (sound, tt);
      members_refer = c.members_refer;
    })

pub add_member-IsConsistent :
    (row : AgentGroupMember) (db db' : Central)
    → IsConsistent db
    → add_member row db ≡ some db'
    → IsConsistent db'
unfolding add_member
add_member-IsConsistent row db db' c e =
    elim (Bool-cases (any (is_membership row.user_id row.agent_group_id) db.members)) [
      | inl there ↦ let same : db ≡ db' = ground arith in subst IsConsistent same c
      | inr absent ↦
          let refers_to : member_refers db row ≡ true = ground arith in
          let same : record db { members = db.members ++ row ∷ [] } ≡ db' = ground arith in
          rw (← same) (record {
            roles_refer = c.roles_refer;
            members_refer =
                All-append (λ m. member_refers db m ≡ true) db.members (row ∷ []) c.members_refer
                  (refers_to, tt);
          })
    ]

revoke_role-IsConsistent :
    (user : String) (role : RoleKind) (scope : Option String) (db : Central)
    → IsConsistent db
    → IsConsistent (revoke_role user role scope db)
unfolding revoke_role
revoke_role-IsConsistent user role scope db c = record {
  roles_refer =
      All-filter (IsSound db) (λ r. not (is_role user role scope r)) db.roles c.roles_refer;
  members_refer = c.members_refer;
}

remove_member-IsConsistent :
    (user group : String) (db : Central)
    → IsConsistent db
    → IsConsistent (remove_member user group db)
unfolding remove_member
remove_member-IsConsistent user group db c = record {
  roles_refer = c.roles_refer;
  members_refer =
      All-filter (λ m. member_refers db m ≡ true) (λ m. not (is_membership user group m)) db.members
        c.members_refer;
}

any-append {ℓ} :
    {A : Type ℓ} (p : A → Bool) (xs ys : List A) → any p (xs ++ ys) ≡ (any p xs || any p ys)
any-append p [] ys = refl
any-append p (x ∷ xs) ys = ground (arith, any-append p xs ys)

any-update_where :
    (id : String) (p : User → Bool) (f : User → User) (us : List User)
    → ((u : User) → (f u).id ≡ u.id)
    → any (λ u. str_eq u.id id) (update_where p f us) ≡ any (λ u. str_eq u.id id) us
any-update_where id p f [] h = refl
any-update_where id p f (u ∷ us) h = ground (arith, any-update_where id p f us h, h u)

-- An upsert adds its user, and loses none.
has_user-upsert_user :
    (user : User) (db : Central) (id : String)
    → has_user db id ≡ true
    → has_user (upsert_user user db) id ≡ true
unfolding upsert_user
has_user-upsert_user user db id h = elim (Bool-cases (has_user db user.id)) [
  | inl e ↦ simp e (any-update_where id _ _ db.users (λ u. refl) ∙ h)
  | inr e ↦ simp e (any-append _ db.users (user ∷ []) ∙ ground arith)
]

groups-upsert_user :
    (user : User) (db : Central)
    → ((upsert_user user db).agent_groups ≡ db.agent_groups)
      × ((upsert_user user db).roles ≡ db.roles)
      × ((upsert_user user db).members ≡ db.members)
unfolding upsert_user
groups-upsert_user user db = (ground arith, ground arith, ground arith)

-- More users, the same groups: what referred still refers.
refers_mono :
    (p q : String → Bool) (o : Option String)
    → ((x : String) → p x ≡ true → q x ≡ true)
    → refers p o ≡ true
    → refers q o ≡ true
refers_mono p q none h e = refl
refers_mono p q (some x) h e = h x e

module _ (db db' : Central) (keeps : (x : String) → has_user db x ≡ true → has_user db' x ≡ true)
    (groups : db'.agent_groups ≡ db.agent_groups) where
  has_group-eq : (x : String) → has_group db x ≡ true → has_group db' x ≡ true
  has_group-eq x h = simp groups h

  IsSound-mono : (r : UserRole) → IsSound db r → IsSound db' r
  IsSound-mono r (h, o) = (
    ground (
      arith,
      keeps r.user_id,
      refers_mono (has_group db) (has_group db') r.agent_group_id has_group-eq,
      refers_mono (has_user db) (has_user db') r.granted_by keeps,
    ),
    o,
  )

  member_refers_mono :
      (m : AgentGroupMember) → member_refers db m ≡ true → member_refers db' m ≡ true
  member_refers_mono m h = ground (
    arith,
    keeps m.user_id,
    has_group-eq m.agent_group_id,
    refers_mono (has_user db) (has_user db') m.added_by keeps,
  )

All-mono {ℓ κ} :
    {A : Type ℓ} (P Q : A → Type κ) (xs : List A) → ((x : A) → P x → Q x) → All P xs → All Q xs
All-mono P Q [] f h = tt
All-mono P Q (x ∷ xs) f (p, h) = (f x p, All-mono P Q xs f h)

upsert_user-IsConsistent :
    (user : User) (db : Central) → IsConsistent db → IsConsistent (upsert_user user db)
upsert_user-IsConsistent user db c =
    let db' = upsert_user user db in
    let (groups, roles, members) = groups-upsert_user user db in
    let keeps = has_user-upsert_user user db in
    record {
      roles_refer = subst (All (IsSound db')) (sym roles) (
          All-mono (IsSound db) (IsSound db') db.roles (IsSound-mono db db' keeps groups)
            c.roles_refer);
      members_refer = subst (All (λ m. member_refers db' m ≡ true)) (sym members) (
          All-mono (λ m. member_refers db m ≡ true) (λ m. member_refers db' m ≡ true) db.members
            (member_refers_mono db db' keeps groups) c.members_refer);
    }
