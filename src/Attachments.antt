-- ===== src/Attachments.antt =====
-- The names and the directories of attachments: attachment-safety.ts and inbox-safety.ts. `Tree` is what the file
-- system answers.
pub mod Inside
pub mod Forwarding
use Prim.Native.Char.{Char, code}
use Prim.Native.String.{◌∷◌ as cons}
use aimclaw.Base.{
  String, str_eq, Bool, true, false, not, ◌&&◌, ◌||◌, Option, none, some, List, [], ◌∷◌, any, ◌==◌,
  if◌then◌else◌,
}
use aimclaw.Text.{begins_with}
use aimclaw.Text.Paths.{join, relative, is_absolute, basename}

abbrev pub is_separator : Char → Bool
is_separator c = code c == 92 || (code c == 47 || code c == 0)

unfoldable pub has_separator : String → Bool
has_separator String.[] = false
has_separator (cons c s) = is_separator c || has_separator s

unfoldable pub is_safe_attachment_name : String → Bool
unfolding has_separator basename
is_safe_attachment_name name =
    if str_eq name ""
    then false
    else if str_eq name "." || str_eq name ".."
    then false
    else if has_separator name
    then false
    else str_eq (basename name) name

-- `cwd` is the working directory.
unfoldable pub is_path_inside : String → String → String → Bool
unfolding relative begins_with is_absolute
is_path_inside cwd parent child =
    let way = relative cwd parent child in
    str_eq way "" || (not (begins_with ".." way) && not (is_absolute way))

pub data Kind : Type 0 where
  directory symbolic_link file other : Kind

-- `lstat` answers before mkdirSync, which may throw, and `realpath` after it; `copies` says whether copyFileSync with
-- COPYFILE_EXCL returns.
pub record Tree : Type 0 where
  pub lstat : String → Option Kind
  pub mkdir_throws : String → Bool
  pub realpath : String → Option String
  pub copies : String → String → Bool

abbrev pub is_unsafe : Option Kind → Bool
is_unsafe none = false
is_unsafe (some directory) = false
is_unsafe (some symbolic_link) = true
is_unsafe (some file) = true
is_unsafe (some other) = true

pub data Containment : Type 0 where
  throws refused : Containment
  contained : String → Containment

abbrev pub real_in : String → Option String → Option String → Containment
real_in cwd none root = refused
real_in cwd (some dir) none = refused
real_in cwd (some dir) (some root) = if is_path_inside cwd root dir then contained dir else refused

abbrev pub made_in : String → Tree → String → String → Containment
made_in cwd tree inbox_root inbox_dir =
    if is_unsafe (tree.lstat inbox_root) || is_unsafe (tree.lstat inbox_dir)
    then refused
    else if tree.mkdir_throws inbox_dir
    then throws
    else real_in cwd (tree.realpath inbox_dir) (tree.realpath inbox_root)

unfoldable pub ensure_contained_inbox_dir : String → Tree → String → String → Containment
unfolding join is_path_inside
ensure_contained_inbox_dir cwd tree inbox_root message_id =
    made_in cwd tree inbox_root (join inbox_root message_id)
