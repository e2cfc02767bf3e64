-- ===== src/Permissions/Revoke.antt =====
-- What a grant and a revocation change.
use aimclaw.Base.{
  String, str_eq_iff, ◌≡◌, ◌≢◌, refl, Bool, true, false, not, Option, List, [], ◌∷◌, any, filter,
  arith,
}
use aimclaw.Permissions.{Central, UserRole, RoleKind, is_role, revoke_role}

any-revoked :
    (user : String) (role : RoleKind) (scope : Option String) (roles : List UserRole)
    → any (is_role user role scope) (filter (λ r. not (is_role user role scope r)) roles) ≡ false
any-revoked user role scope [] = refl
any-revoked user role scope (r ∷ rs) = ground (arith, any-revoked user role scope rs)

-- A role of another user, or of another kind, or with another scope, is not touched.
any-kept :
    (p q : UserRole → Bool) (roles : List UserRole)
    → ((r : UserRole) → p r ≡ true → q r ≡ false)
    → any p (filter (λ r. not (q r)) roles) ≡ any p roles
any-kept p q [] h = refl
any-kept p q (r ∷ rs) h = ground (arith, any-kept p q rs h, h r)

abbrev pub holds : Central → String → RoleKind → Option String → Bool
holds db user role scope = any (is_role user role scope) db.roles

-- A revoked role is no longer held, however often it was granted. Every other user keeps all
-- roles, and the user keeps those of the other kind.
pub revoke_role_lem :
    (user other : String) (role kind : RoleKind) (scope scope' : Option String) (db : Central)
    → other ≢ user
    → role ≢ kind
    → (holds (revoke_role user role scope db) user role scope ≡ false)
      × (holds (revoke_role user role scope db) other kind scope' ≡ holds db other kind scope')
      × (holds (revoke_role user role scope db) other role scope' ≡ holds db other role scope')
      × (holds (revoke_role user role scope db) user kind scope' ≡ holds db user kind scope')
unfolding revoke_role
revoke_role_lem user other role kind scope scope' db n k = (
  any-revoked user role scope db.roles,
  any-kept (is_role other kind scope') (is_role user role scope) db.roles
      (λ r e. ground (arith, str_eq_iff r.user_id other, str_eq_iff r.user_id user)),
  any-kept (is_role other role scope') (is_role user role scope) db.roles
      (λ r e. ground (arith, str_eq_iff r.user_id other, str_eq_iff r.user_id user)),
  any-kept (is_role user kind scope') (is_role user role scope) db.roles (λ r e. ground arith),
)
