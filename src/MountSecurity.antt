-- ===== src/MountSecurity.antt =====
-- modules/mount-security/index.ts: the allowlist of host paths that a group's container may mount, with its
-- cache, and the check of a mount against it. The home directory, the working directory, the path of the
-- allowlist and what `realpath` answers are fields of `Paths`.
pub mod Cache
pub mod Patterns
pub mod Mounts
pub mod Permitted
use Prim.Native.String.{◌∷◌ as cons, ◌++◌}
use mathlib.Core.List
use aimclaw.Base.Lists.{unique_onto}
use aimclaw.Base.{
  ◌>>=◌, ℕ, String, str_eq, Bool, true, false, not, ◌&&◌, ◌||◌, Option, none, some, List, [], ◌∷◌,
  ◌==◌, any, find, filter, if◌then◌else◌,
}
use aimclaw.Text.{begins_with, includes, trim}
use aimclaw.Text.Paths.{split_on, join, resolve, relative, is_absolute, basename}
use aimclaw.Json.{
  Json, null, bool, num, str, arr, obj, Items, nil, Fields, field, end, Content, raw, json,
  property,
}

pub record AdditionalMount : Type 0 where
  pub host_path : String
  pub container_path : Option String
  pub readonly : Option Bool

pub record AllowedRoot : Type 0 where
  pub path : String
  pub allow_read_write : Bool
  pub description : Option String

pub record MountAllowlist : Type 0 where
  pub allowed_roots : List AllowedRoot
  pub blocked_patterns : List String

-- The allowlist file: its mtime, and its content where it can be read.
pub record AllowlistFile : Type 0 where
  pub mtime : ℕ
  pub content : Option Content

pub record Cached : Type 0 where
  pub path : String
  pub mtime : ℕ
  pub allowlist : MountAllowlist

pub record Paths : Type 0 where
  pub home : String
  pub cwd : String
  pub allowlist_path : String
  pub real_path : String → Option String

abbrev pub default_blocked_patterns : List String
default_blocked_patterns =
    ".ssh"
    ∷ (".gnupg"
        ∷ (".gpg"
            ∷ (".aws"
                ∷ (".azure"
                    ∷ (".gcloud"
                        ∷ (".kube"
                            ∷ (".docker"
                                ∷ ("credentials"
                                    ∷ (".env"
                                        ∷ (".netrc"
                                            ∷ (".npmrc"
                                                ∷ (".pypirc"
                                                    ∷ ("id_rsa"
                                                        ∷ ("id_ed25519"
                                                            ∷ ("private_key"
                                                            ∷ (".secret" ∷ []))))))))))))))))

-- The type of an optional JSON field, for `typeof`
abbrev text_or_none : Option Json → Option String
text_or_none (some (str s)) = some s
text_or_none _ = none

abbrev bool_or_none : Option Json → Option Bool
bool_or_none (some (bool b)) = some b
bool_or_none _ = none

abbrev or_empty : Option String → String
or_empty none = ""
or_empty (some s) = s

abbrev pub may_write : Option Bool → Option Bool → Bool
may_write (some allow) read_only = allow
may_write none (some read_only) = not read_only
may_write none none = false

abbrev pub root_of : Option Json → Option Json → Option Json → Option Json → AllowedRoot
root_of path description allow read_only = record {
  path = or_empty (text_or_none path);
  allow_read_write = may_write (bool_or_none allow) (bool_or_none read_only);
  description = text_or_none description;
}

-- An entry that is null throws.
unfoldable pub normalize_root : Json → Option AllowedRoot
unfolding property
normalize_root root = do
  path ← property "path" root
  description ← property "description" root
  allow ← property "allowReadWrite" root
  read_only ← property "readOnly" root
  some (root_of path description allow read_only)

unfoldable pub normalize_roots : Items → Option (List AllowedRoot)
unfolding normalize_root
normalize_roots nil = some []
normalize_roots (Items.cons j js) = do
  root ← normalize_root j
  roots ← normalize_roots js
  some (root ∷ roots)

-- What `includes` makes of a pattern that is no text: its conversion to one.
mutual
  pub as_text : Json → String
  as_text null = "null"
  as_text (bool b) = if b then "true" else "false"
  as_text (num n) = n
  as_text (str s) = s
  as_text (arr xs) = items_text xs
  as_text (obj fs) = "[object Object]"

  pub items_text : Items → String
  items_text nil = ""
  items_text (Items.cons null nil) = ""
  items_text (Items.cons j nil) = as_text j
  items_text (Items.cons null (Items.cons k js)) = "," ++ items_text (Items.cons k js)
  items_text (Items.cons j (Items.cons k js)) = as_text j ++ ("," ++ items_text (Items.cons k js))

unfoldable pub patterns_of : Items → List String
unfolding as_text
patterns_of nil = []
patterns_of (Items.cons j js) = as_text j ∷ patterns_of js

abbrev pub merged : List String → List String → List String
merged [] ys = ys
merged (x ∷ xs) ys = x ∷ merged xs ys

abbrev pub items_or_none : Option Json → Option Items
items_or_none (some (arr xs)) = some xs
items_or_none _ = none

unfoldable pub allowlist_of : List AllowedRoot → List String → MountAllowlist
unfolding unique_onto
allowlist_of allowed_roots patterns = record {
  allowed_roots = allowed_roots;
  blocked_patterns = unique_onto [] (merged default_blocked_patterns patterns);
}

-- From a parsed file to an allowlist; none where the code throws
unfoldable pub read_allowlist : Content → Option MountAllowlist
unfolding property normalize_roots patterns_of allowlist_of
read_allowlist (raw s) = none
read_allowlist (json j) = do
  allowed ← property "allowedRoots" j
  roots ← items_or_none allowed
  blocked ← property "blockedPatterns" j
  patterns ← items_or_none blocked
  allowed_roots ← normalize_roots roots
  some (allowlist_of allowed_roots (patterns_of patterns))

-- The allowlist that a readable file holds
unfoldable pub parse_file : AllowlistFile → Option MountAllowlist
unfolding read_allowlist
parse_file f = do content ← f.content; read_allowlist content

abbrev pub Loaded : Type 0
Loaded = Option MountAllowlist × Option Cached

-- What is read from disk is kept; a failure empties the cache.
abbrev pub store : Paths → AllowlistFile → Option MountAllowlist → Loaded
store env f none = (none, none)
store env f (some allowlist) = (
  some allowlist,
  some (record { path = env.allowlist_path; mtime = f.mtime; allowlist = allowlist }),
)

abbrev pub is_fresh : Paths → AllowlistFile → Cached → Bool
is_fresh env f c = str_eq c.path env.allowlist_path && (c.mtime == f.mtime)

-- The file is none where `stat` throws.
unfoldable pub load_mount_allowlist : Paths → Option AllowlistFile → Option Cached → Loaded
unfolding parse_file
load_mount_allowlist env none cache = (none, cache)
load_mount_allowlist env (some f) none = store env f (parse_file f)
load_mount_allowlist env (some f) (some c) =
    if is_fresh env f c then (some c.allowlist, some c) else store env f (parse_file f)

-- `slice(2)`
abbrev drop_two : String → String
drop_two (cons c (cons d s)) = s
drop_two s = ""

unfoldable pub expand_path : Paths → String → String
unfolding begins_with join resolve
expand_path env p =
    if begins_with "~/" p
    then join env.home (drop_two p)
    else if str_eq p "~"
    then env.home
    else resolve env.cwd p

unfoldable pub matches_blocked_pattern : String → List String → Option String
unfolding split_on includes
matches_blocked_pattern real_path patterns =
    find
      (λ pattern.
        any (λ part. str_eq part pattern || includes part pattern) (split_on "/" real_path)
        || includes real_path pattern)
      patterns

abbrev pub is_under : Paths → String → String → Bool
is_under env root real_path =
    let way = relative env.cwd root real_path in not (begins_with ".." way) && not (is_absolute way)

abbrev pub covers : Paths → String → Option String → Bool
covers env real_path none = false
covers env real_path (some root) = is_under env root real_path

unfoldable pub find_allowed_root : Paths → String → List AllowedRoot → Option AllowedRoot
unfolding expand_path begins_with relative is_absolute
find_allowed_root env real_path roots =
    find (λ root. covers env real_path (env.real_path (expand_path env root.path))) roots

unfoldable pub is_valid_container_path : String → Bool
unfolding includes begins_with trim
is_valid_container_path p =
    not (includes p "..")
    && (not (begins_with "/" p)
        && (not (str_eq p "" || str_eq (trim p) "") && not (includes p ":")))

-- The reasons, with what their texts are made of
pub data Reason : Type 0 where
  no_allowlist : Reason
  invalid_container_path : String → Reason
  no_such_path : String → String → Reason
  blocked : String → String → Reason
  outside : String → Reason
  under_root : AllowedRoot → Reason

pub record MountValidationResult : Type 0 where
  pub allowed : Bool
  pub reason : Reason
  pub real_host_path : Option String
  pub resolved_container_path : Option String
  pub effective_readonly : Option Bool

abbrev pub rejected : Reason → MountValidationResult
rejected reason = record {
  allowed = false;
  reason = reason;
  real_host_path = none;
  resolved_container_path = none;
  effective_readonly = none;
}

-- `mount.containerPath || path.basename(mount.hostPath)`
abbrev pub container_path_of : Option String → String → String
container_path_of none fallback = fallback
container_path_of (some p) fallback = if str_eq p "" then fallback else p

abbrev pub asks_to_write : Option Bool → Bool
asks_to_write (some false) = true
asks_to_write _ = false

abbrev pub mounted : AdditionalMount → String → String → AllowedRoot → MountValidationResult
mounted mount container_path real_path root = record {
  allowed = true;
  reason = under_root root;
  real_host_path = some real_path;
  resolved_container_path = some container_path;
  effective_readonly = some (not (asks_to_write mount.readonly && root.allow_read_write));
}

unfoldable pub check_root :
    Paths → AdditionalMount → String → String → MountAllowlist → MountValidationResult
unfolding matches_blocked_pattern find_allowed_root
check_root env mount container_path real_path allowlist =
    elim (matches_blocked_pattern real_path allowlist.blocked_patterns) [
      | some pattern ↦ rejected (blocked pattern real_path)
      | none ↦ elim (find_allowed_root env real_path allowlist.allowed_roots) [
        | none ↦ rejected (outside real_path)
        | some root ↦ mounted mount container_path real_path root
      ]
    ]

unfoldable pub check_mount : Paths → AdditionalMount → Option MountAllowlist → MountValidationResult
unfolding basename is_valid_container_path expand_path check_root
check_mount env mount none = rejected no_allowlist
check_mount env mount (some allowlist) =
    let container_path = container_path_of mount.container_path (basename mount.host_path) in
    let expanded = expand_path env mount.host_path in
    if is_valid_container_path container_path
    then elim (env.real_path expanded) [
      | none ↦ rejected (no_such_path mount.host_path expanded)
      | some real_path ↦ check_root env mount container_path real_path allowlist
    ]
    else rejected (invalid_container_path container_path)

unfoldable pub validate_mount :
    Paths
    → Option AllowlistFile
    → AdditionalMount
    → Option Cached
    → MountValidationResult × Option Cached
unfolding load_mount_allowlist check_mount
validate_mount env file mount cache =
    let (allowlist, cache') = load_mount_allowlist env file cache in
    (check_mount env mount allowlist, cache')

pub record ValidatedMount : Type 0 where
  pub host_path : String
  pub container_path : String
  pub readonly : Bool

-- A result that is allowed has all three; the `!` of the code.
abbrev pub validated : MountValidationResult → List ValidatedMount
validated r =
    if r.allowed
    then (elim r.real_host_path [
      | none ↦ []
      | some host_path ↦ elim r.resolved_container_path [
        | none ↦ []
        | some p ↦ elim r.effective_readonly [
          | none ↦ []
          | some readonly ↦
              record {
                host_path = host_path;
                container_path = "/workspace/extra/" ++ p;
                readonly = readonly;
              }
              ∷ []
        ]
      ]
    ])
    else []

-- The file as it is during the loop
unfoldable pub validate_additional_mounts :
    Paths
    → Option AllowlistFile
    → List AdditionalMount
    → Option Cached
    → List ValidatedMount × Option Cached
unfolding validate_mount
validate_additional_mounts env file [] cache = ([], cache)
validate_additional_mounts env file (mount ∷ mounts) cache =
    let (result, cache') = validate_mount env file mount cache in
    let (rest, cache'') = validate_additional_mounts env file mounts cache' in
    (List.◌++◌ (validated result) rest, cache'')

abbrev entry : String → Bool → String → Json
entry path allow description = obj (
    field "path" (str path)
      (field "allowReadWrite" (bool allow) (field "description" (str description) end)))

-- The template, as what it parses to
abbrev pub generate_allowlist_template : Json
generate_allowlist_template = obj (
    field "allowedRoots"
      (arr (
        Items.cons (entry "~/projects" true "Development projects") (
          Items.cons (entry "~/repos" true "Git repositories")
            (Items.cons (entry "~/Documents/work" false "Work documents (read-only)") nil))))
      (field "blockedPatterns"
        (arr
          (Items.cons (str "password") (Items.cons (str "secret") (Items.cons (str "token") nil))))
        end))
