-- ===== src/SlackAccess/Administrators.antt =====
-- Who stays an administrator when administrators change.
use mathlib.Core.List.{Memᴰ}
use aimclaw.Base.Lists.{unique_onto}
use aimclaw.Base.{
  ℕ, suc, String, str_eq, str_eq_iff, str_eq_refl, ◌≡◌, refl, sym, ap, ◌∙◌, Bool, true, false, not,
  ◌&&◌, ◌||◌, none, some, List, [], ◌∷◌, ◌++◌, any, any-Mem, any-append, filter, length, ◌==◌,
  if◌then◌else◌, arith, Bool-cases, inl, inr,
}
use aimclaw.Permissions.{
  Central, RoleKind, UserRole, User, upsert_user, grant_role, is_owner, is_global_admin, is_role,
}
use aimclaw.SlackAccess.{
  Action, AdministratorCommand, is_administrator, is_global, users_of, administrators, granted,
  new_role, new_user, add_administrator, remove_administrator, change_administrator, acted, add,
  remove,
}

abbrev pub holds : String → UserRole → Bool
holds user r = str_eq r.user_id user && is_global r

any-holds :
    (user : String) (rs : List UserRole)
    → (any (is_role user RoleKind.owner none) rs || any (is_role user RoleKind.admin none) rs)
      ≡ any (holds user) rs
any-holds user [] = refl
any-holds user (r ∷ rs) = ground (arith, any-holds user rs)

pub is_administrator-eq :
    (db : Central) (user : String) → is_administrator db user ≡ any (holds user) db.roles
unfolding is_owner is_global_admin
is_administrator-eq db user = any-holds user db.roles

pub upsert_user-roles : (u : User) (db : Central) → (upsert_user u db).roles ≡ db.roles
unfolding upsert_user
upsert_user-roles u db = ground arith

pub upsert_user-members : (u : User) (db : Central) → (upsert_user u db).members ≡ db.members
unfolding upsert_user
upsert_user-members u db = ground arith

granted_unless :
    (user : String) (b : Bool) (row : UserRole) (known : Central)
    → any (holds user) known.roles ≡ true
    → any
        (holds user)
        ((granted
            (if b then none else some (record known { roles = known.roles ++ row ∷ [] }))
            known).1
          ).roles
      ≡ true
granted_unless user true row known h = h
granted_unless user false row known h = any-append (holds user) known.roles (row ∷ []) ∙ rw h refl

module _ (now : ℕ) (actor target user : String) where
  granted-holds :
      (known : Central)
      → any (holds user) known.roles ≡ true
      → any (holds user) ((granted (grant_role (new_role now target actor) known) known).1).roles
        ≡ true
  unfolding grant_role
  granted-holds known h = granted_unless user _ (new_role now target actor) known h

  add_administrator-holds :
      (db : Central)
      → any (holds user) db.roles ≡ true
      → any (holds user) ((add_administrator now actor target db).1).roles ≡ true
  unfolding add_administrator
  add_administrator-holds db h =
      let known = upsert_user (new_user now target) db in
      let there : any (holds user) known.roles ≡ true =
        ap (any (holds user)) (upsert_user-roles (new_user now target) db) ∙ h in
      elim (Bool-cases (is_administrator known target)) [
        | inl e ↦ rw e there
        | inr e ↦ rw e (granted-holds known there)
      ]

pub any-kept :
    (target user : String) (rs : List UserRole)
    → str_eq user target ≡ false
    → any (holds user) (filter (λ r. not (str_eq r.user_id target && is_global r)) rs)
      ≡ any (holds user) rs
any-kept target user [] e = refl
any-kept target user (r ∷ rs) e = ground (
  arith,
  any-kept target user rs e,
  str_eq_iff r.user_id user,
  str_eq_iff r.user_id target,
  str_eq_iff user target,
)

holds-Mem :
    (r : UserRole) (rs : List UserRole)
    → Memᴰ r rs
    → is_global r ≡ true
    → any (holds r.user_id) rs ≡ true
holds-Mem r [] m g = elim m [ ]
holds-Mem r (x ∷ rs) (Memᴰ.head e) g = rw (← e, g, str_eq_refl r.user_id) refl
holds-Mem r (x ∷ rs) (Memᴰ.tail m) g = ground (arith, holds-Mem r rs m g)

any-users_of :
    (p : String → Bool) (rs : List UserRole)
    → any p (users_of (filter is_global rs)) ≡ any (λ r. p r.user_id && is_global r) rs
any-users_of p [] = refl
any-users_of p (r ∷ rs) = ground (arith, any-users_of p rs)

abbrev differs : String → String → Bool
differs t u = not (str_eq u t)

unique_all_same :
    (t : String) (ids : List String) → any (differs t) ids ≡ false → unique_onto (t ∷ []) ids ≡ []
unfolding unique_onto
unique_all_same t [] e = refl
unique_all_same t (x ∷ xs) e = ground (arith, unique_all_same t xs, str_eq_iff x t, str_eq_iff t x)

one_of_same :
    (t : String) (ids : List String)
    → any (λ u. str_eq u t) ids ≡ true
    → any (differs t) ids ≡ false
    → length (unique_onto [] ids) ≡ 1
unfolding unique_onto
one_of_same t [] e d = cc
one_of_same t (x ∷ xs) e d =
    let same : x ≡ t = (str_eq_iff x t).0 (ground arith) in
    rw same (ap (λ r. suc (length r)) (unique_all_same t xs (ground arith)))

-- More than one administrator: there is another.
another :
    (t : String) (rs : List UserRole)
    → any (λ u. str_eq u t) (users_of (filter is_global rs)) ≡ true
    → (length (unique_onto [] (users_of (filter is_global rs))) == 1) ≡ false
    → (u : String) × (str_eq u t ≡ false) × (any (holds u) rs ≡ true)
another t rs e n = elim (Bool-cases (any (differs t) (users_of (filter is_global rs)))) [
  | inr d ↦ let one = one_of_same t (users_of (filter is_global rs)) e d in ground arith
  | inl d ↦
      let (r, m, h) =
        any-Mem (λ (r : UserRole). differs t r.user_id && is_global r) rs
          (sym (any-users_of (differs t) rs) ∙ d) in
      (r.user_id, ground arith, holds-Mem r rs m (ground arith))
]

-- The users whose roles a command leaves alone, and whether one is an administrator after it
HasAdministrator : Central → Type 0
HasAdministrator db = (u : String) × (any (holds u) db.roles ≡ true)

module _ (actor target : String) (db : Central) where
  remove_administrator-HasAdministrator :
      any (holds actor) db.roles ≡ true
      → HasAdministrator ((remove_administrator actor target db).1)
  unfolding remove_administrator HasAdministrator
  remove_administrator-HasAdministrator h =
      elim (Bool-cases (any (λ u. str_eq u target) (administrators db))) [
        | inr e ↦ rw e (actor, h)
        | inl e ↦ elim (Bool-cases (str_eq target actor)) [
          | inr d ↦
              rw (e, d)
                (
                  actor,
                  any-kept target actor db.roles
                        (ground (arith, str_eq_iff target actor, str_eq_iff actor target))
                      ∙ h,
                )
          | inl d ↦ elim (Bool-cases (length (unique_onto [] (administrators db)) == 1)) [
            | inl one ↦ rw (e, d, one) (actor, h)
            | inr more ↦
                let (u, apart, there) = another target db.roles e more in
                rw (e, d, more) (u, any-kept target u db.roles apart ∙ there)
          ]
        ]
      ]

acted-HasAdministrator :
    (now : ℕ) (actor target : String) (action : Action) (db : Central)
    → any (holds actor) db.roles ≡ true
    → HasAdministrator ((acted now actor action target db).1)
unfolding HasAdministrator
acted-HasAdministrator now actor target add db h =
    (actor, add_administrator-holds now actor target actor db h)
acted-HasAdministrator now actor target remove db h =
    remove_administrator-HasAdministrator actor target db h

-- One command after another, each of an actor
unfoldable pub change_all : ℕ → List (String × AdministratorCommand) → Central → Central
unfolding change_administrator
change_all now [] db = db
change_all now ((actor, command) ∷ rest) db =
    change_all now rest ((change_administrator now actor command db).1)

module _ (now : ℕ) where
  change_administrator-HasAdministrator :
      (actor : String) (command : AdministratorCommand) (db : Central)
      → HasAdministrator db
      → HasAdministrator ((change_administrator now actor command db).1)
  unfolding change_administrator HasAdministrator
  change_administrator-HasAdministrator actor command db h =
      elim (Bool-cases (is_administrator db actor)) [
        | inr e ↦ rw e h
        | inl e ↦ rw e (
            acted-HasAdministrator now actor command.target_user_id command.action db
              (sym (is_administrator-eq db actor) ∙ e))
      ]

  change_all-HasAdministrator :
      (commands : List (String × AdministratorCommand)) (db : Central)
      → HasAdministrator db
      → HasAdministrator (change_all now commands db)
  unfolding change_all
  change_all-HasAdministrator [] db h = h
  change_all-HasAdministrator ((actor, command) ∷ rest) db h =
      change_all-HasAdministrator rest _ (change_administrator-HasAdministrator actor command db h)

-- No sequence of commands, whoever gives them, leaves the host without an administrator once it has one.
pub change_all-keeps_one :
    (now : ℕ) (commands : List (String × AdministratorCommand)) (db : Central) (user : String)
    → is_administrator db user ≡ true
    → (left : String) × (is_administrator (change_all now commands db) left ≡ true)
unfolding HasAdministrator
change_all-keeps_one now commands db user h =
    let (left, e) =
      change_all-HasAdministrator now commands db (user, sym (is_administrator-eq db user) ∙ h) in
    (left, is_administrator-eq (change_all now commands db) left ∙ e)
