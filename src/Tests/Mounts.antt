-- ===== src/Tests/Mounts.antt =====
-- The allowlist of mounts, and paths.
use mathlib.Core.Option
use aimclaw.Base.{
  true, ℕ, str_eq, ◌≡◌, refl, false, Option, none, some, List, [], ◌∷◌, map, All, if◌then◌else◌,
  ◌==◌,
}
use aimclaw.Text.{is_space}
use aimclaw.Text.Paths.{normalize, relative, basename, join, resolve}
use aimclaw.Json.{Json, Items, bool, str, arr, obj, nil, end, field, Content}
use aimclaw.MountSecurity.{
  MountAllowlist, Paths, AllowedRoot, read_allowlist, generate_allowlist_template, AllowlistFile,
  AdditionalMount, validate_additional_mounts,
}
use aimclaw.MountSecurity.Cache.{fresh, load_all, load_all-fresh}
use aimclaw.MountSecurity.Permitted.{IsPermitted, validate_additional_mounts-IsPermitted}

normalize_test : normalize "/a//b/../c/" ≡ "/a/c/"
unfolding normalize
normalize_test = refl

relative_test : relative "/w" "/a/b" "/a/c/d" ≡ "../c/d"
unfolding relative
relative_test = refl

basename_test : basename "/a/b//" ≡ "b"
unfolding basename
basename_test = refl

join_test : join "/root" "x/../../y" ≡ "/y"
unfolding join
join_test = refl

resolve_test : resolve "/w" "../../x/." ≡ "/x"
unfolding resolve
resolve_test = refl

normalize_up : normalize "a/../../b" ≡ "../b"
unfolding normalize
normalize_up = refl

-- A home with a project, behind a link, and a key beside it
abbrev env : Paths
env = record {
  home = "/home/ann";
  cwd = "/srv/aimclaw";
  allowlist_path = "/home/ann/.config/nanoclaw/mount-allowlist.json";
  real_path = λ p.
      if str_eq p "/home/ann/projects"
      then some "/data/projects"
      else if str_eq p "/home/ann/projects/web"
      then some "/data/projects/web"
      else if str_eq p "/data/other"
      then some "/data/other"
      else none;
}

abbrev root : Json
root = obj (field "path" (str "~/projects") (field "readOnly" (bool false) end))

abbrev contents : ℕ → Option Content
contents n =
    if n == 1
    then some (Content.raw "{ broken")
    else some (
        Content.json (
          obj (
            field "allowedRoots" (arr (Items.cons root nil))
              (field "blockedPatterns" (arr (Items.cons (str "token") nil)) end))))

abbrev file : ℕ → Option AllowlistFile
file n = some (record { mtime = n; content = contents n })

abbrev asked : List AdditionalMount
asked =
    record { host_path = "~/projects/web"; container_path = some "web"; readonly = some false }
    ∷ (record { host_path = "/data/other"; container_path = none; readonly = none }
        ∷ (record { host_path = "~/projects"; container_path = some "../x"; readonly = none } ∷ []))

validated_test :
    (validate_additional_mounts env (file 2) asked none).0
    ≡ record {
      host_path = "/data/projects/web";
      container_path = "/workspace/extra/web";
      readonly = false;
    }
      ∷ []
unfolding validate_additional_mounts is_space
validated_test = refl

validate_additional_mounts-IsPermitted_example :
    All (IsPermitted env (file 2) asked) ((validate_additional_mounts env (file 2) asked none).0)
validate_additional_mounts-IsPermitted_example =
    validate_additional_mounts-IsPermitted env contents (file 2) refl asked none tt

abbrev files : List (Option AllowlistFile)
files = file 2 ∷ (file 2 ∷ (file 1 ∷ (none ∷ (file 3 ∷ []))))

load_all-fresh_example : load_all env contents files none ≡ map fresh files
load_all-fresh_example =
    load_all-fresh env contents files none (refl, (refl, (refl, (tt, (refl, tt))))) tt

template_test :
    Option.map
      (λ (a : MountAllowlist). map (λ (r : AllowedRoot). r.allow_read_write) a.allowed_roots)
      (read_allowlist (Content.json generate_allowlist_template))
    ≡ some (true ∷ (true ∷ (false ∷ [])))
unfolding read_allowlist
template_test = refl
