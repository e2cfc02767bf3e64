-- ===== src/Attachments/Forwarding.antt =====
-- The files of a message between agents: forwardAttachedFiles of modules/agent-to-agent/agent-route.ts. `trees n` is what
-- the file system answers in the n-th round of the loop.
use Prim.Native.String.{◌∷◌ as cons, ◌++◌}
use aimclaw.Base.{
  ℕ, suc, String, ◌≡◌, Bool, true, false, not, Option, none, some, List, [], ◌∷◌, if◌then◌else◌,
}
use aimclaw.Text.Paths.{join, steps, resolve}
use aimclaw.Text.Paths.Walks.{IsBelow}
use aimclaw.Attachments.{
  Kind, file, directory, Tree, Containment, throws, refused, contained, is_safe_attachment_name,
  is_path_inside, ensure_contained_inbox_dir,
}

-- A copy that was made
pub record Copied : Type 0 where
  pub name : String
  pub real_source : String
  pub target : String

abbrev is_file : Option Kind → Bool
is_file (some file) = true
is_file _ = false

abbrev is_directory : Option Kind → Bool
is_directory (some directory) = true
is_directory _ = false

abbrev copied_if : Bool → Copied → Option Copied
copied_if true c = some c
copied_if false c = none

abbrev copy_real : String → Tree → String → String → String → Option String → Option Copied
copy_real cwd tree real_source_dir target_dir name none = none
copy_real cwd tree real_source_dir target_dir name (some real) =
    if is_path_inside cwd real_source_dir real
    then copied_if (tree.copies real (join target_dir name))
        (record { name = name; real_source = real; target = join target_dir name })
    else none

-- one round of the loop
unfoldable pub copy_one : String → Tree → String → String → String → String → Option Copied
unfolding join is_path_inside is_safe_attachment_name
copy_one cwd tree source_dir real_source_dir target_dir name =
    if not (is_safe_attachment_name name)
    then none
    else if not (is_file (tree.lstat (join source_dir name)))
    then none
    else copy_real cwd tree real_source_dir target_dir name (tree.realpath (join source_dir name))

abbrev onto : Option Copied → List Copied → List Copied
onto none cs = cs
onto (some c) cs = c ∷ cs

unfoldable pub copy_all :
    String → (ℕ → Tree) → ℕ → String → String → String → List String → List Copied
unfolding copy_one
copy_all cwd trees n source_dir real_source_dir target_dir [] = []
copy_all cwd trees n source_dir real_source_dir target_dir (name ∷ names) =
    onto (copy_one cwd (trees n) source_dir real_source_dir target_dir name)
      (copy_all cwd trees (suc n) source_dir real_source_dir target_dir names)

abbrev into :
    String → (ℕ → Tree) → String → String → List String → Containment → Option (List Copied)
into cwd trees source_dir real_source_dir names throws = none
into cwd trees source_dir real_source_dir names refused = some []
into cwd trees source_dir real_source_dir names (contained target_dir) =
    some (copy_all cwd trees 0 source_dir real_source_dir target_dir names)

abbrev from_real :
    String
    → Tree
    → (ℕ → Tree)
    → String
    → String
    → String
    → List String
    → Option String
    → Option (List Copied)
from_real cwd tree trees source_dir inbox_root target_id names none = some []
from_real cwd tree trees source_dir inbox_root target_id names (some real_source_dir) =
    into cwd trees source_dir real_source_dir names
      (ensure_contained_inbox_dir cwd tree inbox_root target_id)

-- `outbox` and `inbox_root` are the directories of the two sessions; none where mkdirSync throws
unfoldable pub forward_attached_files :
    String
    → Tree
    → (ℕ → Tree)
    → String
    → String
    → String
    → String
    → List String
    → Option (List Copied)
unfolding join is_safe_attachment_name ensure_contained_inbox_dir copy_all
forward_attached_files cwd tree trees outbox message_id inbox_root target_id [] = some []
forward_attached_files cwd tree trees outbox message_id inbox_root target_id (name ∷ names) =
    if not (is_safe_attachment_name message_id)
    then some []
    else if not (is_directory (tree.lstat (join outbox message_id)))
    then some []
    else from_real cwd tree trees (join outbox message_id) inbox_root target_id (name ∷ names)
        (tree.realpath (join outbox message_id))

-- A copy is of a file that really lies below the real source directory, under a safe name, to a place where nothing
-- stood.
abbrev pub IsKept : String → (ℕ → Tree) → String → String → Copied → Type 0
IsKept cwd trees real_source_dir target_dir c =
    (is_safe_attachment_name c.name ≡ true)
    × IsBelow (steps true (resolve cwd real_source_dir)) (steps true (resolve cwd c.real_source))
    × (c.target ≡ join target_dir c.name)
    × ((n : ℕ) × ((trees n).lstat c.target ≡ none))

-- COPYFILE_EXCL: a copy fails where anything stands, a link too.
abbrev pub IsExclusive : (ℕ → Tree) → Type 0
IsExclusive trees = (n : ℕ) (s d : String) → (trees n).copies s d ≡ true → (trees n).lstat d ≡ none

module _ (cwd : String) (tree : Tree) (trees : ℕ → Tree) (exclusive : IsExclusive trees)
    (real : (p q : String) → tree.realpath p ≡ some q → resolve cwd q ≡ q)
    (outbox message_id inbox_root target_id : String) where
  -- The directories of the copy are the real one of the message in the outbox, which was no link, and the one that the
  -- guard made in the inbox; the path of the name there is below the real inbox.
  abbrev pub IsForwarded : Copied → Type 0
  IsForwarded c =
      (real_source_dir : String) × (target_dir : String) × (tree.lstat (join outbox message_id)
        ≡ some directory)
      × (tree.realpath (join outbox message_id) ≡ some real_source_dir)
      × (ensure_contained_inbox_dir cwd tree inbox_root target_id ≡ contained target_dir)
      × IsKept cwd trees real_source_dir target_dir c
      × ((top : String) × ((tree.realpath inbox_root ≡ some top)
            × IsBelow (steps true top) (steps true (target_dir ++ cons "/" c.name))))
