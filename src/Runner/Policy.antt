-- ===== src/Runner/Policy.antt =====
-- container/agent-runner/src/execution-policy.ts: the tools that the sender of the current request may use.
-- `toLowerCase` is the parameter `lower`.
pub mod Grants
use Prim.Native.Char.{Char, code}
use Prim.Native.String.{◌∷◌ as cons, ◌++◌}
use aimclaw.Base.{
  ◌>>=◌, ℕ, zero, suc, ◌+◌, ◌/◌, ◌%◌, String, str_eq, is_text, Bool, true, false, not, ◌&&◌, ◌||◌,
  Option, none, some, List, [], ◌∷◌, any, find, map, ltb, ◌==◌, if◌then◌else◌,
}
use mathlib.Core.List
use aimclaw.Text.{includes, trim}
use aimclaw.Json.{
  Json, str, arr, obj, Items, nil, Fields, end, field, Content, raw, json, property, get_field,
  texts_of, entries, is_object,
}

pub data Role : Type 0 where
  administrator member system : Role

pub record ExecutionPolicy : Type 0 where
  pub user_id : Option String
  pub role : Role
  pub allowed_tools : List String
  pub skill_tools : List (String × List String)

pub record AuthorizationMessage : Type 0 where
  pub id : Option String
  pub kind : String
  pub channel_type : Option String
  pub trigger : Bool
  pub content : Content

-- `currentPolicy` and `selectedTools`
pub record Enforcement : Type 0 where
  pub current : ExecutionPolicy
  pub selected : List String

abbrev pub member_policy : ExecutionPolicy
member_policy = record { user_id = none; role = member; allowed_tools = []; skill_tools = [] }

abbrev pub system_policy : ExecutionPolicy
system_policy = record member_policy { role = system }

-- `.` matches anything but the end of a line.
abbrev is_line_end : Char → Bool
is_line_end c = let n = code c in n == 10 || (n == 13 || (n == 8232 || n == 8233))

abbrev after_line : (String → Bool) → String → Bool
after_line test String.[] = test ""
after_line test (cons c s) = test (cons c s) || (not (is_line_end c) && after_line test s)

-- the regular expression that a pattern with stars becomes
unfoldable pub fits : String → String → Bool
fits String.[] String.[] = true
fits String.[] (cons c s) = false
fits (cons p ps) String.[] = code p == 42 && fits ps ""
fits (cons p ps) (cons c s) =
    let many = after_line (fits ps) (cons c s) in
    let one = fits ps s in if code p == 42 then many else code p == code c && one

unfoldable pub matches : String → String → Bool
unfolding includes fits
matches pattern tool = if includes pattern "*" then fits pattern tool else str_eq pattern tool

abbrev texts_in : Json → Option (List String)
texts_in (arr xs) = texts_of xs
texts_in _ = none

unfoldable pub all_texts : List (String × Json) → Option (List (String × List String))
unfolding texts_of
all_texts [] = some []
all_texts ((k, v) ∷ rest) = do
  tools ← texts_in v
  others ← all_texts rest
  some ((k, tools) ∷ others)

skills_in : Option Json → Option (List (String × List String))
unfolding entries all_texts
skills_in none = none
skills_in (some j) = if is_object j then all_texts (entries j) else none

abbrev role_in : Option Json → Option Role
role_in (some (str s)) =
    if str_eq s "administrator"
    then some administrator
    else if str_eq s "member"
    then some member
    else none
role_in _ = none

abbrev tools_in : Option Json → Option (List String)
tools_in (some (arr xs)) = texts_of xs
tools_in _ = none

abbrev user_in : Option Json → Option String
user_in (some (str s)) = some s
user_in _ = none

abbrev object_in : Option Json → Option Json
object_in none = none
object_in (some j) = if is_object j then some j else none

abbrev pub policy_of :
    Option Json → Role → List String → List (String × List String) → ExecutionPolicy
policy_of user role tools skills = record {
  user_id = user_in user;
  role = role;
  allowed_tools = tools;
  skill_tools = skills;
}

-- none stands for null, a value that throws included.
unfoldable pub read_policy : Content → Option ExecutionPolicy
unfolding property texts_of skills_in
read_policy (raw s) = none
read_policy (json j) = do
  found ← property "_nanoclawAuthorization" j
  policy ← object_in found
  role_field ← property "role" policy
  role ← role_in role_field
  tools_field ← property "allowedTools" policy
  tools ← tools_in tools_field
  skills_field ← property "skillTools" policy
  skills ← skills_in skills_field
  user ← property "userId" policy
  some (policy_of user role tools skills)

abbrev or_last :
    Option AuthorizationMessage → Option AuthorizationMessage → Option AuthorizationMessage
or_last (some m) last = some m
or_last none last = last

last_where : (AuthorizationMessage → Bool) → List AuthorizationMessage → Option AuthorizationMessage
last_where p [] = none
last_where p (m ∷ ms) = let rest = last_where p ms in or_last rest (if p m then some m else none)

-- The last message that triggers, or the last one
unfoldable pub deciding : List AuthorizationMessage → Option AuthorizationMessage
unfolding last_where
deciding ms = or_last (last_where (λ m. m.trigger) ms) (last_where (λ m. true) ms)

abbrev pub is_trusted : AuthorizationMessage → Bool
is_trusted m = str_eq m.kind "task" || (str_eq m.kind "system" || is_text m.channel_type "agent")

abbrev pub policy_or : Option ExecutionPolicy → ExecutionPolicy → ExecutionPolicy
policy_or none d = d
policy_or (some p) d = p

unfoldable pub policy_for : Option AuthorizationMessage → ExecutionPolicy
unfolding read_policy
policy_for none = member_policy
policy_for (some m) =
    policy_or (read_policy m.content) (if is_trusted m then system_policy else member_policy)

abbrev id_of : Option AuthorizationMessage → Option String
id_of none = none
id_of (some m) = m.id

-- with the id that is returned
unfoldable pub set_execution_policy_for_messages :
    List AuthorizationMessage → Enforcement × Option String
unfolding deciding policy_for
set_execution_policy_for_messages ms =
    (record { current = policy_for (deciding ms); selected = [] }, id_of (deciding ms))

abbrev without_slash : String → String
without_slash String.[] = ""
without_slash (cons c s) = if code c == 47 then s else cons c s

abbrev name_or : Option Json → Option Json → String
name_or (some (str s)) name = s
name_or _ (some (str s)) = s
name_or _ _ = ""

-- The input of a call, an object
unfoldable pub skill_name : (String → String) → Fields → String
unfolding trim get_field
skill_name lower input =
    lower (without_slash (trim (name_or (get_field "skill" input) (get_field "name" input))))

abbrev pub tools_of : String → List (String × List String) → Option (List String)
tools_of skill [] = none
tools_of skill ((name, tools) ∷ rest) =
    let later = tools_of skill rest in if str_eq name skill then some tools else later

abbrev pub is_listed : String → List String → Bool
is_listed t ts = any (λ x. str_eq x t) ts

-- An object inherits these names, and what they hold has no `includes`.
abbrev pub is_inherited : String → Bool
is_inherited s = str_eq s "constructor" || str_eq s "__proto__"

abbrev pub Authorized : Type 0
Authorized = Option (Bool × Enforcement)

abbrev pub select : Option (List String) → String → Enforcement → Authorized
select none skill e = if is_inherited skill then none else some (false, e)
select (some tools) skill e =
    if is_listed "Skill" tools
    then some (true, record e { selected = List.◌++◌ e.selected tools })
    else some (false, e)

abbrev pub is_member_role : Role → Bool
is_member_role member = true
is_member_role _ = false

-- Whether the call is allowed; none where the code throws
unfoldable pub authorize_tool : (String → String) → String → Fields → Enforcement → Authorized
unfolding matches skill_name
authorize_tool lower tool input e =
    if not (is_member_role e.current.role)
    then some (true, e)
    else if str_eq tool "Skill"
    then (let skill = skill_name lower input in
        select (tools_of skill e.current.skill_tools) skill e)
    else some (any (λ p. matches p tool) (List.◌++◌ e.current.allowed_tools e.selected), e)
