-- ===== src/SlackAccess.antt =====
-- custom/slack-user-access.ts: the policy that a routed request carries, and the change of administrators.
-- `toLowerCase` is the parameter `lower`.
pub mod Administrators
pub mod Carried
pub mod Confined
pub mod Others
use Prim.Native.Char.{Char, code}
use Prim.Native.String.{◌∷◌ as cons, ◌++◌}
use mathlib.Core.List
use aimclaw.Base.Lists.{unique_onto}
use aimclaw.Base.{
  ◌>>=◌, ℕ, ◌+◌, String, str_eq, Bool, true, false, not, ◌&&◌, ◌||◌, Option, none, some, List, [],
  ◌∷◌, any, filter, map, length, ltb, leb, ◌==◌, if◌then◌else◌,
}
use aimclaw.Text.{begins_with}
use aimclaw.Json.{
  Json, null, bool, str, arr, obj, Items, nil, Fields, end, field, Content, raw, json, property,
  with_property, texts_of, entries, is_object,
}
use aimclaw.Permissions.{
  Central, RoleKind, User, UserRole, AgentGroupMember, is_null, upsert_user, grant_role, is_owner,
  is_global_admin, add_member,
}
use aimclaw.Router.{InboundEvent}

pub record AllowlistFile : Type 0 where
  pub tools : List String
  pub commands : List String
  pub skills : List (String × List String)

abbrev is_empty : String → Bool
is_empty s = str_eq s ""

abbrev is_name_char : Char → Bool
is_name_char c = let n = code c in (leb 97 n && leb n 122) || (leb 48 n && leb n 57)

are_name_chars : String → Bool
are_name_chars String.[] = true
are_name_chars (cons c s) = (is_name_char c || code c == 45) && are_name_chars s

-- /^[a-z0-9][a-z0-9-]*$/
abbrev is_skill_name : String → Bool
is_skill_name String.[] = false
is_skill_name (cons c s) = is_name_char c && are_name_chars s

abbrev texts_in : Option Json → Option (List String)
texts_in (some (arr xs)) = texts_of xs
texts_in _ = none

abbrev valid_skill : String → Option (List String) → Option (String × List String)
valid_skill name none = none
valid_skill name (some tools) =
    if is_skill_name name && (any (λ t. str_eq t "Skill") tools && not (any is_empty tools))
    then some (name, unique_onto [] tools)
    else none

load_skills : List (String × Json) → Option (List (String × List String))
unfolding are_name_chars unique_onto
load_skills [] = some []
load_skills ((name, tools) ∷ rest) = do
  skill ← valid_skill name (texts_in (some tools))
  skills ← load_skills rest
  some (skill ∷ skills)

abbrev entries_in : Option Json → Option (List (String × Json))
entries_in none = none
entries_in (some j) = if is_object j then some (entries j) else none

abbrev checked :
    List String
    → List String
    → List (String × List String)
    → (String → String)
    → Option AllowlistFile
checked tools commands skills lower =
    if any is_empty tools || any (λ c. not (begins_with "/" c)) commands
    then none
    else some (record {
      tools = unique_onto [] tools;
      commands = unique_onto [] (map lower commands);
      skills = skills;
    })

-- none where the code throws
unfoldable pub load_allowlist : (String → String) → Content → Option AllowlistFile
unfolding property texts_of entries load_skills begins_with unique_onto
load_allowlist lower (raw s) = none
load_allowlist lower (json j) = do
  tools_field ← property "tools" j
  commands_field ← property "commands" j
  skills_field ← property "skills" j
  tools ← texts_in tools_field
  commands ← texts_in commands_field
  named ← entries_in skills_field
  skills ← load_skills named
  checked tools commands skills lower

abbrev pub is_administrator : Central → String → Bool
is_administrator db user = is_owner db user || is_global_admin db user

abbrev pub is_administrator_of : Central → Option String → Bool
is_administrator_of db none = false
is_administrator_of db (some user) = not (is_empty user) && is_administrator db user

abbrev array_of : List String → Items
array_of [] = nil
array_of (t ∷ ts) = Items.cons (str t) (array_of ts)

abbrev object_of : List (String × List String) → Fields
object_of [] = end
object_of ((name, tools) ∷ rest) = field name (arr (array_of tools)) (object_of rest)

abbrev slashed_names : List (String × List String) → List String
slashed_names [] = []
slashed_names ((name, tools) ∷ rest) = ("/" ++ name) ∷ slashed_names rest

abbrev text_or_null : Option String → Json
text_or_null none = null
text_or_null (some s) = str s

abbrev pub authorization : Option String → Bool → AllowlistFile → Json
authorization user administrator allowlist = obj (
    field "userId" (text_or_null user) (
      field "role" (str (if administrator then "administrator" else "member")) (
        field "allowedTools" (arr (array_of allowlist.tools)) (
          field "allowedCommands"
            (arr (array_of (List.◌++◌ allowlist.commands (slashed_names allowlist.skills))))
            (field "skillTools" (obj (object_of allowlist.skills)) end)))))

abbrev pub no_allowlist : AllowlistFile
no_allowlist = record { tools = []; commands = []; skills = [] }

abbrev is_true : Option Json → Bool
is_true (some (bool b)) = b
is_true _ = false

-- `author?.isBot === true`: what is no object has no such property.
is_bot : Option Json → Bool
unfolding property
is_bot none = false
is_bot (some null) = false
is_bot (some j) = elim (property "isBot" j) [ none ↦ false | some b ↦ is_true b ]

abbrev is_set : Option Bool → Bool
is_set none = false
is_set (some b) = b

abbrev may_enroll : InboundEvent → Bool
may_enroll event = str_eq event.channel_type "slack" && is_set event.is_group

abbrev row_of : ℕ → String → String → AgentGroupMember
row_of now user group = record {
  user_id = user;
  agent_group_id = group;
  added_by = none;
  added_at = now;
}

-- A person who writes in a Slack channel becomes a member; none where this throws.
unfoldable pub enroll : ℕ → InboundEvent → Option String → String → Json → Central → Option Central
unfolding property is_bot add_member
enroll now event none group content db = some db
enroll now event (some user) group content db =
    if may_enroll event && not (is_empty user)
    then (do
      author ← property "author" content
      if is_bot author then some db else add_member (row_of now user group) db)
    else some db

abbrev printed : Option Json → Option Content
printed none = none
printed (some j) = some (json j)

-- The content as the event carries it on, or none where the code throws, and the tables.
abbrev pub Applied : Type 0
Applied = Option Content × Central

abbrev pub stamped : Option String → Bool → AllowlistFile → Json → Option Content
stamped user administrator allowlist content =
    printed
      (with_property "_nanoclawAuthorization" (authorization user administrator allowlist) content)

abbrev pub enrolled : Option String → AllowlistFile → Json → Central → Option Central → Applied
enrolled user allowlist content db none = (none, db)
enrolled user allowlist content db (some db') = (stamped user false allowlist content, db')

unfoldable pub for_member :
    ℕ → Option AllowlistFile → InboundEvent → Option String → String → Json → Central → Applied
unfolding enroll
for_member now none event user group content db = (none, db)
for_member now (some allowlist) event user group content db =
    enrolled user allowlist content db (enroll now event user group content db)

abbrev pub policy_on :
    ℕ → Option AllowlistFile → InboundEvent → Option String → String → Central → Content → Applied
policy_on now allowlist event user group db (raw s) = (some (raw s), db)
policy_on now allowlist event user group db (json content) =
    if is_administrator_of db user
    then (stamped user true no_allowlist content, db)
    else for_member now allowlist event user group content db

unfoldable pub apply_request_policy :
    ℕ → Option AllowlistFile → InboundEvent → Option String → String → Central → Applied
unfolding with_property for_member
apply_request_policy now allowlist event user group db =
    policy_on now allowlist event user group db event.content

pub data Action : Type 0 where
  add remove : Action

pub record AdministratorCommand : Type 0 where
  pub action : Action
  pub target_user_id : String

-- The answers, in the order of the code
pub data Verdict : Type 0 where
  no_administrator already added target_is_none last_one removed : Verdict

abbrev pub is_ok : Verdict → Bool
is_ok already = true
is_ok added = true
is_ok removed = true
is_ok _ = false

abbrev new_user : ℕ → String → User
new_user now id = record { id = id; kind = "slack"; display_name = none; created_at = now }

abbrev new_role : ℕ → String → String → UserRole
new_role now target actor = record {
  user_id = target;
  role = RoleKind.admin;
  agent_group_id = none;
  granted_by = some actor;
  granted_at = now;
}

abbrev pub is_global : UserRole → Bool
is_global r = is_null r.agent_group_id

abbrev pub users_of : List UserRole → List String
users_of rs = map (λ r. r.user_id) rs

-- The SELECT of remove: both kinds of role are listed.
abbrev pub administrators : Central → List String
administrators db = users_of (filter is_global db.roles)

-- The DELETE of remove
abbrev pub revoke_global : String → Central → Central
revoke_global target db = record db {
  roles = filter (λ r. not (str_eq r.user_id target && is_global r)) db.roles;
}

-- What the INSERT leaves; it throws on a missing reference.
abbrev granted : Option Central → Central → Option Verdict × Central
granted none db = (none, db)
granted (some db') db = (some added, db')

unfoldable pub add_administrator : ℕ → String → String → Central → Option Verdict × Central
unfolding upsert_user is_owner is_global_admin grant_role
add_administrator now actor target db =
    let known = upsert_user (new_user now target) db in
    if is_administrator known target
    then (some already, known)
    else granted (grant_role (new_role now target actor) known) known

unfoldable pub remove_administrator : String → String → Central → Option Verdict × Central
unfolding unique_onto
remove_administrator actor target db =
    if not (any (λ u. str_eq u target) (administrators db))
    then (some target_is_none, db)
    else if str_eq target actor && length (unique_onto [] (administrators db)) == 1
    then (some last_one, db)
    else (some removed, revoke_global target db)

abbrev pub acted : ℕ → String → Action → String → Central → Option Verdict × Central
acted now actor add target db = add_administrator now actor target db
acted now actor remove target db = remove_administrator actor target db

-- The answer, or none where the code throws
unfoldable pub change_administrator :
    ℕ → String → AdministratorCommand → Central → Option Verdict × Central
unfolding is_owner is_global_admin add_administrator remove_administrator
change_administrator now actor command db =
    if is_administrator db actor
    then acted now actor command.action command.target_user_id db
    else (some no_administrator, db)
