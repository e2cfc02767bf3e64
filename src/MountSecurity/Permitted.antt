-- ===== src/MountSecurity/Permitted.antt =====
-- What all checks of a group let through.
use mathlib.Core.List.{Memᴰ}
use aimclaw.Base.{ℕ, ◌≡◌, refl, sym, Option, none, some, List, [], ◌∷◌, All, All-append, All-weaken}
use aimclaw.Json.{Content}
use aimclaw.MountSecurity.{
  AdditionalMount, MountAllowlist, AllowlistFile, Cached, Paths, ValidatedMount,
  default_blocked_patterns, check_mount, validate_mount, validated, validate_additional_mounts,
}
use aimclaw.MountSecurity.Patterns.{IsFreeOf, fresh-blocks_defaults}
use aimclaw.MountSecurity.Cache.{IsTimed, IsCoherent, fresh, load_mount_allowlist-IsCoherent}
use aimclaw.MountSecurity.Mounts.{IsSafe, check_mount-IsSafe}

-- With the loop's list of requests growing
IsSafe-tail :
    (env : Paths) (allowlist : MountAllowlist) (mount : AdditionalMount)
    (mounts : List AdditionalMount) (v : ValidatedMount)
    → IsSafe env allowlist mounts v
    → IsSafe env allowlist (mount ∷ mounts) v
IsSafe-tail env allowlist mount mounts v (asked, root, mem, r, l, u, f, b, w) =
    (asked, root, Memᴰ.tail mem, r, l, u, f, b, w)

-- Every validated mount is one that the allowlist on disk permits, and that misses the default patterns.
abbrev pub IsPermitted :
    Paths → Option AllowlistFile → List AdditionalMount → ValidatedMount → Type 0
IsPermitted env file mounts v =
    (allowlist : MountAllowlist) × (fresh file ≡ some allowlist)
    × IsSafe env allowlist mounts v
    × All (IsFreeOf v.host_path) default_blocked_patterns

IsSafe-IsPermitted :
    (env : Paths) (file : Option AllowlistFile) (allowlist : MountAllowlist)
    (mounts : List AdditionalMount) (v : ValidatedMount)
    → fresh file ≡ some allowlist
    → IsSafe env allowlist mounts v
    → IsPermitted env file mounts v
IsSafe-IsPermitted env file allowlist mounts v e (asked, root, mem, r, l, u, f, b, w) = (
  allowlist,
  e,
  (asked, root, mem, r, l, u, f, b, w),
  fresh-blocks_defaults file v.host_path allowlist e f,
)

module _ (env : Paths) (contents : ℕ → Option Content) (file : Option AllowlistFile)
    (timed : IsTimed env contents file) where
  check_mount-IsPermitted :
      (mount : AdditionalMount) (mounts : List AdditionalMount) (loaded : Option MountAllowlist)
      → fresh file ≡ loaded
      → All (IsPermitted env file (mount ∷ mounts)) (validated (check_mount env mount loaded))
  unfolding check_mount
  check_mount-IsPermitted mount mounts none e = tt
  check_mount-IsPermitted mount mounts (some allowlist) e =
      All-weaken (IsSafe env allowlist (mount ∷ mounts)) (IsPermitted env file (mount ∷ mounts)) _
        (λ v. IsSafe-IsPermitted env file allowlist (mount ∷ mounts) v e)
        (check_mount-IsSafe env mount (mount ∷ mounts) (Memᴰ.head refl) allowlist)

  -- Whatever the cache holds from earlier contents, a mount that is let through was asked for and exists, lies
  -- below a root of the allowlist that is on disk now, contains none of its patterns nor of the default
  -- ones, appears in the container below /workspace/extra, and is writable only if the request and the root say
  -- so; if the file's mtime tells its content.
  pub validate_additional_mounts-IsPermitted :
      (mounts : List AdditionalMount) (cache : Option Cached)
      → IsCoherent env contents cache
      → All (IsPermitted env file mounts) ((validate_additional_mounts env file mounts cache).0)
  unfolding validate_additional_mounts validate_mount
  validate_additional_mounts-IsPermitted [] cache c = tt
  validate_additional_mounts-IsPermitted (mount ∷ mounts) cache c =
      let (e, c') = load_mount_allowlist-IsCoherent env contents file cache timed c in
      All-append (IsPermitted env file (mount ∷ mounts)) _ _
        (check_mount-IsPermitted mount mounts _ (sym e))
        (All-weaken (IsPermitted env file mounts) (IsPermitted env file (mount ∷ mounts)) _
          (λ v p. (p.0, p.1, IsSafe-tail env (p.0) mount mounts v (p.2), p.3))
          (validate_additional_mounts-IsPermitted mounts _ c'))
