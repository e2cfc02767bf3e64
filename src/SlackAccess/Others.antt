-- ===== src/SlackAccess/Others.antt =====
-- Whom a command of an administrator touches.
use aimclaw.Base.Lists.{unique_onto}
use aimclaw.Base.{
  List, filter, not, str_eq_refl, ℕ, String, str_eq, str_eq_iff, ◌≡◌, ◌⊎◌, refl, sym, ap, ◌∙◌, Bool,
  true, false, ◌&&◌, none, some, [], ◌∷◌, ◌++◌, any, any-append, length, ◌==◌, if◌then◌else◌, arith,
  Bool-cases, inl, inr,
}
use aimclaw.Permissions.{Central, UserRole, upsert_user, grant_role}
use aimclaw.SlackAccess.{
  Action, AdministratorCommand, is_administrator, administrators, granted, new_role, new_user,
  add_administrator, remove_administrator, change_administrator, acted, add, remove, is_global,
}
use aimclaw.SlackAccess.Administrators.{
  holds, is_administrator-eq, upsert_user-roles, upsert_user-members, any-kept,
}

-- A command touches nobody but its target.
granted_others :
    (user : String) (b : Bool) (row : UserRole) (known : Central)
    → str_eq row.user_id user ≡ false
    → any
        (holds user)
        ((granted
            (if b then none else some (record known { roles = known.roles ++ row ∷ [] }))
            known).1
          ).roles
      ≡ any (holds user) known.roles
granted_others user true row known h = refl
granted_others user false row known h =
    any-append (holds user) known.roles (row ∷ []) ∙ ground arith

module _ (now : ℕ) (actor target user : String) (apart : str_eq user target ≡ false) where
  apart_of_target : str_eq target user ≡ false
  apart_of_target = ground (arith, apart, str_eq_iff user target, str_eq_iff target user)

  granted-others :
      (known : Central)
      → any (holds user) ((granted (grant_role (new_role now target actor) known) known).1).roles
        ≡ any (holds user) known.roles
  unfolding grant_role
  granted-others known = granted_others user _ (new_role now target actor) known apart_of_target

  acted-others :
      (action : Action) (db : Central)
      → any (holds user) ((acted now actor action target db).1).roles ≡ any (holds user) db.roles
  unfolding add_administrator remove_administrator
  acted-others add db =
      let known = upsert_user (new_user now target) db in
      let same = ap (any (holds user)) (upsert_user-roles (new_user now target) db) in
      elim (Bool-cases (is_administrator known target)) [
        | inl e ↦ rw e same
        | inr e ↦ rw e (granted-others known ∙ same)
      ]
  acted-others remove db = elim (Bool-cases (any (λ u. str_eq u target) (administrators db))) [
    | inr e ↦ rw e refl
    | inl e ↦
        elim (Bool-cases
          (str_eq target actor && length (unique_onto [] (administrators db)) == 1)) [
            | inl d ↦ rw (e, d) refl
            | inr d ↦ rw (e, d) (any-kept target user db.roles apart)
          ]
  ]

-- A row of a role that is no global one of the target
abbrev pub is_elsewhere : String → UserRole → Bool
is_elsewhere target r = not (str_eq r.user_id target && is_global r)

filter_idempotent :
    (p : UserRole → Bool) (rows : List UserRole) → filter p (filter p rows) ≡ filter p rows
filter_idempotent p [] = refl
filter_idempotent p (r ∷ rows) = elim (Bool-cases (p r)) [
  | inl e ↦ rw (e, e) (ap (λ t. r ∷ t) (filter_idempotent p rows))
  | inr e ↦ rw e (filter_idempotent p rows)
]

filter-last :
    (p : UserRole → Bool) (row : UserRole) (rows : List UserRole)
    → p row ≡ false
    → filter p (rows ++ row ∷ []) ≡ filter p rows
filter-last p row [] e = rw e refl
filter-last p row (r ∷ rows) e = elim (Bool-cases (p r)) [
  | inl h ↦ rw h (ap (λ t. r ∷ t) (filter-last p row rows e))
  | inr h ↦ rw h (filter-last p row rows e)
]

-- The roles outside the global ones of the target, and the members
abbrev IsSameElsewhere : String → Central → Central → Type 0
IsSameElsewhere target db' db =
    (filter (is_elsewhere target) db'.roles ≡ filter (is_elsewhere target) db.roles)
    × (db'.members ≡ db.members)

granted_elsewhere :
    (target : String) (b : Bool) (row : UserRole) (known : Central)
    → is_elsewhere target row ≡ false
    → IsSameElsewhere target
        ((granted
          (if b then none else some (record known { roles = known.roles ++ row ∷ [] }))
          known).1)
        known
granted_elsewhere target true row known e = (refl, refl)
granted_elsewhere target false row known e =
    (filter-last (is_elsewhere target) row known.roles e, refl)

module _ (now : ℕ) (actor target : String) where
  granted-elsewhere :
      (known : Central)
      → IsSameElsewhere target
          ((granted (grant_role (new_role now target actor) known) known).1)
          known
  unfolding grant_role
  granted-elsewhere known =
      granted_elsewhere target _ (new_role now target actor) known (rw (str_eq_refl target) refl)

  acted-elsewhere :
      (action : Action) (db : Central)
      → IsSameElsewhere target ((acted now actor action target db).1) db
  unfolding add_administrator remove_administrator
  acted-elsewhere add db =
      let known = upsert_user (new_user now target) db in
      let roles = ap (filter (is_elsewhere target)) (upsert_user-roles (new_user now target) db) in
      let members = upsert_user-members (new_user now target) db in
      elim (Bool-cases (is_administrator known target)) [
        | inl e ↦ rw e (roles, members)
        | inr e ↦ let (r, m) = granted-elsewhere known in rw e (r ∙ roles, m ∙ members)
      ]
  acted-elsewhere remove db = elim (Bool-cases (any (λ u. str_eq u target) (administrators db))) [
    | inr e ↦ rw e (refl, refl)
    | inl e ↦
        elim (Bool-cases
          (str_eq target actor && length (unique_onto [] (administrators db)) == 1)) [
            | inl d ↦ rw (e, d) (refl, refl)
            | inr d ↦ rw (e, d) (filter_idempotent (is_elsewhere target) db.roles, refl)
          ]
  ]

changed-elsewhere :
    (now : ℕ) (actor : String) (command : AdministratorCommand) (db : Central)
    → IsSameElsewhere command.target_user_id ((change_administrator now actor command db).1) db
unfolding change_administrator
changed-elsewhere now actor command db = elim (Bool-cases (is_administrator db actor)) [
  | inr e ↦ rw e (refl, refl)
  | inl e ↦ rw e (acted-elsewhere now actor command.target_user_id command.action db)
]

changed-others :
    (now : ℕ) (actor user : String) (command : AdministratorCommand) (db : Central)
    → (str_eq user command.target_user_id ≡ false) ⊎ (is_administrator db actor ≡ false)
    → is_administrator ((change_administrator now actor command db).1) user
      ≡ is_administrator db user
unfolding change_administrator
changed-others now actor user command db h = elim (Bool-cases (is_administrator db actor)) [
  | inr e ↦ rw e refl
  | inl e ↦ elim h [
    | inr nobody ↦ cc (e, nobody)
    | inl apart ↦ rw e (
        is_administrator-eq ((acted now actor command.action command.target_user_id db).1) user
        ∙ (acted-others now actor command.target_user_id user apart command.action db
            ∙ sym (is_administrator-eq db user)))
  ]
]

-- A command changes no rows of roles but the global ones of its target, in particular no scoped role of anybody and
-- no role of anybody else, and it changes no membership. Whether a user is an administrator changes only by a
-- command with that user as its target, which an administrator gave.
pub change_administrator-others :
    (now : ℕ) (actor user : String) (command : AdministratorCommand) (db : Central)
    → (str_eq user command.target_user_id ≡ false) ⊎ (is_administrator db actor ≡ false)
    → (let db' = (change_administrator now actor command db).1 in
        (filter (is_elsewhere command.target_user_id) db'.roles
          ≡ filter (is_elsewhere command.target_user_id) db.roles)
        × (db'.members ≡ db.members)
        × (is_administrator db' user ≡ is_administrator db user))
change_administrator-others now actor user command db h =
    let (roles, members) = changed-elsewhere now actor command db in
    (roles, members, changed-others now actor user command db h)
