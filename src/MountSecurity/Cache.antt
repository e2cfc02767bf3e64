-- ===== src/MountSecurity/Cache.antt =====
-- The allowlist's cache.
use aimclaw.Base.{
  ℕ, ◌≡◌, refl, sym, ap, ◌∙◌, Option, none, some, List, [], ◌∷◌, map, All, arith, Bool-cases,
  Option-cases, inl, inr,
}
use aimclaw.Json.{Content}
use aimclaw.MountSecurity.{
  MountAllowlist, AllowlistFile, Cached, Paths, store, is_fresh, parse_file, load_mount_allowlist,
}

-- The allowlist on disk
abbrev pub fresh : Option AllowlistFile → Option MountAllowlist
fresh none = none
fresh (some f) = parse_file f

-- The file's mtime tells its content.
module _ (env : Paths) (contents : ℕ → Option Content) where
  abbrev pub IsTimed : Option AllowlistFile → Type 0
  IsTimed none = Unit
  IsTimed (some f) = f.content ≡ contents f.mtime

  -- What is kept is the allowlist of a file with that mtime.
  abbrev pub IsCoherent : Option Cached → Type 0
  IsCoherent none = Unit
  IsCoherent (some c) =
      parse_file (record { mtime = c.mtime; content = contents c.mtime }) ≡ some c.allowlist

  -- One load after another, each of the file as it is then
  unfoldable pub load_all :
      List (Option AllowlistFile) → Option Cached → List (Option MountAllowlist)
  unfolding load_mount_allowlist
  load_all [] cache = []
  load_all (f ∷ fs) cache =
      let (allowlist, cache') = load_mount_allowlist env f cache in allowlist ∷ load_all fs cache'

  parse_file-content :
      (f : AllowlistFile) (n : ℕ)
      → f.mtime ≡ n
      → f.content ≡ contents f.mtime
      → parse_file f ≡ parse_file (record { mtime = n; content = contents n })
  unfolding parse_file
  parse_file-content f n e t = rw (t, e) refl

  IsCoherent-store :
      (f : AllowlistFile)
      → f.content ≡ contents f.mtime
      → ((store env f (parse_file f)).0 ≡ parse_file f)
        × IsCoherent ((store env f (parse_file f)).1)
  IsCoherent-store f t = elim (Option-cases (parse_file f)) [
    | inl e ↦ rw e (refl, tt)
    | inr (a, e) ↦ rw e (refl, sym (parse_file-content f f.mtime refl t) ∙ e)
  ]

  pub load_mount_allowlist-IsCoherent :
      (f : Option AllowlistFile) (cache : Option Cached)
      → IsTimed f
      → IsCoherent cache
      → ((load_mount_allowlist env f cache).0 ≡ fresh f)
        × IsCoherent ((load_mount_allowlist env f cache).1)
  unfolding load_mount_allowlist
  load_mount_allowlist-IsCoherent none cache t c = (refl, c)
  load_mount_allowlist-IsCoherent (some f) none t c = IsCoherent-store f t
  load_mount_allowlist-IsCoherent (some f) (some k) t c = elim (Bool-cases (is_fresh env f k)) [
    | inl e ↦ rw e (sym (parse_file-content f k.mtime (ground arith) t ∙ c), c)
    | inr e ↦ rw e (IsCoherent-store f t)
  ]

  -- Loads in a row, of the file as it is each time, give the allowlist that is on disk at that moment, through
  -- a cache that holds nothing or what its mtime's content says, if files with the same mtime have the same
  -- content.
  pub load_all-fresh :
      (fs : List (Option AllowlistFile)) (cache : Option Cached)
      → All IsTimed fs
      → IsCoherent cache
      → load_all fs cache ≡ map fresh fs
  unfolding load_all
  load_all-fresh [] cache t c = refl
  load_all-fresh (f ∷ fs) cache (t, ts) c =
      let (e, c') = load_mount_allowlist-IsCoherent f cache t c in
      rw e (ap (λ r. fresh f ∷ r) (load_all-fresh fs _ ts c'))
