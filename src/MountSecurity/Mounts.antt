-- ===== src/MountSecurity/Mounts.antt =====
-- What a validated mount may reach.
use Prim.Native.String.{◌++◌}
use mathlib.Core.List.{Memᴰ}
use aimclaw.Base.{
  String, ◌≡◌, ◌⊎◌, refl, sym, ap, ◌∙◌, Bool, true, false, not, ◌&&◌, Option, none, some, List, [],
  ◌∷◌, find-holds, find-Mem, All, arith, Bool-cases, Option-cases, inl, inr,
}
use aimclaw.Text.Paths.{basename, resolve, relative, steps}
use aimclaw.Text.Paths.Walks.{IsBelow, route-IsBelow, steps-extra}
use aimclaw.MountSecurity.{
  AdditionalMount, AllowedRoot, MountAllowlist, Paths, ValidatedMount, MountValidationResult,
  Reason, rejected, mounted, expand_path, matches_blocked_pattern, is_under, covers,
  find_allowed_root, is_valid_container_path, check_root, check_mount, validated, asks_to_write,
  container_path_of,
}
use aimclaw.MountSecurity.Patterns.{IsFreeOf, All-IsFreeOf}

-- The real path of the root is a directory on the way to the path.
abbrev pub IsUnder : Paths → AllowedRoot → String → Type 0
IsUnder env root path =
    (top : String) × (env.real_path (expand_path env root.path) ≡ some top)
    × IsBelow (steps true (resolve env.cwd top)) (steps true (resolve env.cwd path))

-- A mount as the allowlist permits it, for one of the mounts that were asked for
abbrev pub IsSafe : Paths → MountAllowlist → List AdditionalMount → ValidatedMount → Type 0
IsSafe env allowlist mounts v =
    (asked : AdditionalMount) × (root : AllowedRoot) × Memᴰ asked mounts
    × (env.real_path (expand_path env asked.host_path) ≡ some v.host_path)
    × Memᴰ root allowlist.allowed_roots
    × IsUnder env root v.host_path
    × All (IsFreeOf v.host_path) allowlist.blocked_patterns
    × IsBelow ("workspace" ∷ ("extra" ∷ [])) (steps true v.container_path)
    × (v.readonly ≡ false → (asked.readonly ≡ some false) × (root.allow_read_write ≡ true))

is_under-IsBelow :
    (env : Paths) (top path : String)
    → is_under env top path ≡ true
    → IsBelow (steps true (resolve env.cwd top)) (steps true (resolve env.cwd path))
unfolding relative
is_under-IsBelow env top path e =
    route-IsBelow (steps true (resolve env.cwd top)) (steps true (resolve env.cwd path))
      (ground arith)

covers-IsUnder :
    (env : Paths) (root : AllowedRoot) (path : String)
    → covers env path (env.real_path (expand_path env root.path)) ≡ true
    → IsUnder env root path
covers-IsUnder env root path e = elim (Option-cases (env.real_path (expand_path env root.path))) [
  | inl f ↦ cc (ap (covers env path) (sym f) ∙ e)
  | inr (top, f) ↦ (top, f, is_under-IsBelow env top path (ap (covers env path) (sym f) ∙ e))
]

find_allowed_root-IsUnder :
    (env : Paths) (path : String) (roots : List AllowedRoot) (root : AllowedRoot)
    → find_allowed_root env path roots ≡ some root
    → Memᴰ root roots × IsUnder env root path
unfolding find_allowed_root
find_allowed_root-IsUnder env path roots root e =
    let p = λ (r : AllowedRoot). covers env path (env.real_path (expand_path env r.path)) in
    (find-Mem p roots root e, covers-IsUnder env root path (find-holds p roots root e))

-- Only a mount that does not ask in vain is writable.
may_write_only :
    (asked : Option Bool) (allow : Bool)
    → not (asks_to_write asked && allow) ≡ false
    → (asked ≡ some false) × (allow ≡ true)
may_write_only none allow e = cc
may_write_only (some true) allow e = cc
may_write_only (some false) true e = (refl, refl)
may_write_only (some false) false e = cc

container_path-IsBelow :
    (p : String)
    → is_valid_container_path p ≡ true
    → IsBelow ("workspace" ∷ ("extra" ∷ [])) (steps true ("/workspace/extra/" ++ p))
unfolding is_valid_container_path
container_path-IsBelow p e = steps-extra p (ground arith)

-- What one check adds
Adds : Paths → MountAllowlist → List AdditionalMount → MountValidationResult → Type 0
Adds env allowlist mounts r = All (IsSafe env allowlist mounts) (validated r)

Adds-rejected :
    (env : Paths) (allowlist : MountAllowlist) (mounts : List AdditionalMount) (reason : Reason)
    → Adds env allowlist mounts (rejected reason)
unfolding Adds
Adds-rejected env allowlist mounts reason = tt

module _ (env : Paths) (mount : AdditionalMount) (p path : String)
    (allowlist : MountAllowlist) where
  check_root-blocked :
      (pattern : String)
      → matches_blocked_pattern path allowlist.blocked_patterns ≡ some pattern
      → check_root env mount p path allowlist ≡ rejected (Reason.blocked pattern path)
  unfolding check_root
  check_root-blocked pattern e = rw (e, check_root) refl

  check_root-outside :
      matches_blocked_pattern path allowlist.blocked_patterns ≡ none
      → find_allowed_root env path allowlist.allowed_roots ≡ none
      → check_root env mount p path allowlist ≡ rejected (Reason.outside path)
  unfolding check_root
  check_root-outside free e = rw (free, e, check_root) refl

  check_root-under :
      (root : AllowedRoot)
      → matches_blocked_pattern path allowlist.blocked_patterns ≡ none
      → find_allowed_root env path allowlist.allowed_roots ≡ some root
      → check_root env mount p path allowlist ≡ mounted mount p path root
  unfolding check_root
  check_root-under root free e = rw (free, e, check_root) refl

module _ (env : Paths) (mount : AdditionalMount) (mounts : List AdditionalMount)
    (mem : Memᴰ mount mounts) (allowlist : MountAllowlist) where
  mounted-Adds :
      (p path : String) (root : AllowedRoot)
      → env.real_path (expand_path env mount.host_path) ≡ some path
      → is_valid_container_path p ≡ true
      → matches_blocked_pattern path allowlist.blocked_patterns ≡ none
      → find_allowed_root env path allowlist.allowed_roots ≡ some root
      → Adds env allowlist mounts (mounted mount p path root)
  unfolding Adds
  mounted-Adds p path root r valid free e =
      let (in_list, under) = find_allowed_root-IsUnder env path allowlist.allowed_roots root e in
      (
        (
          mount,
          root,
          mem,
          r,
          in_list,
          under,
          All-IsFreeOf path allowlist.blocked_patterns free,
          container_path-IsBelow p valid,
          may_write_only mount.readonly root.allow_read_write,
        ),
        tt,
      )

  check_root-Adds :
      (p path : String)
      → env.real_path (expand_path env mount.host_path) ≡ some path
      → is_valid_container_path p ≡ true
      → Adds env allowlist mounts (check_root env mount p path allowlist)
  check_root-Adds p path r valid =
      elim (Option-cases (matches_blocked_pattern path allowlist.blocked_patterns)) [
        | inr (pattern, e) ↦
            rw (check_root-blocked env mount p path allowlist pattern e)
              (Adds-rejected env allowlist mounts _)
        | inl free ↦ elim (Option-cases (find_allowed_root env path allowlist.allowed_roots)) [
          | inl e ↦
              rw (check_root-outside env mount p path allowlist free e)
                (Adds-rejected env allowlist mounts _)
          | inr (root, e) ↦
              rw (check_root-under env mount p path allowlist root free e)
                (mounted-Adds p path root r valid free e)
        ]
      ]

  -- The check ends in a refusal, or goes on with the real path.
  check_mount-cases :
      ((reason : Reason) × (check_mount env mount (some allowlist) ≡ rejected reason))
      ⊎ ((p : String) × (path : String) × (env.real_path (expand_path env mount.host_path)
            ≡ some path)
          × (is_valid_container_path p ≡ true)
          × (check_mount env mount (some allowlist) ≡ check_root env mount p path allowlist))
  unfolding check_mount
  check_mount-cases =
      let p = container_path_of mount.container_path (basename mount.host_path) in
      elim (Bool-cases (is_valid_container_path p)) [
        | inr e ↦ inl (Reason.invalid_container_path p, rw e refl)
        | inl valid ↦ elim (Option-cases (env.real_path (expand_path env mount.host_path))) [
          | inl e ↦ inl (
            Reason.no_such_path mount.host_path (expand_path env mount.host_path),
            rw (valid, e) refl,
          )
          | inr (path, e) ↦ inr (p, path, e, valid, rw (valid, e) refl)
        ]
      ]

  check_mount-Adds : Adds env allowlist mounts (check_mount env mount (some allowlist))
  check_mount-Adds = elim check_mount-cases [
    | inl (reason, e) ↦ rw e (Adds-rejected env allowlist mounts reason)
    | inr (p, path, r, valid, e) ↦ rw e (check_root-Adds p path r valid)
  ]

-- Whatever one check lets through is safe.
pub check_mount-IsSafe :
    (env : Paths) (mount : AdditionalMount) (mounts : List AdditionalMount)
    (mem : Memᴰ mount mounts) (allowlist : MountAllowlist)
    → All (IsSafe env allowlist mounts) (validated (check_mount env mount (some allowlist)))
unfolding Adds
check_mount-IsSafe env mount mounts mem allowlist = check_mount-Adds env mount mounts mem allowlist
