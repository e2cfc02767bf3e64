-- ===== src/CommandGate.antt =====
-- The gate for slash commands: command-gate.ts. `toLowerCase` is the parameter `lower`: it follows the
-- tables of Unicode.
pub mod Evasion
pub mod Authority
use aimclaw.Base.{
  String, str_eq, Bool, true, false, not, ◌&&◌, ◌||◌, Option, none, some, List, [], ◌∷◌, any,
  if◌then◌else◌,
}
use aimclaw.Json.{
  Json, null, bool, num, str, arr, obj, Items, nil, cons, Content, raw, json, property,
}
use aimclaw.Permissions.{Central, is_owner, is_global_admin, has_admin_privilege}
use aimclaw.Text.{trim, first_word, begins_with}

pub data GateResult : Type 0 where
  pass filter : GateResult
  deny : (command : String) → GateResult

abbrev pub filtered_commands : List String
filtered_commands =
    "/start" ∷ "/help" ∷ "/login" ∷ "/logout" ∷ "/doctor" ∷ "/config" ∷ "/remote-control" ∷ []

abbrev pub admin_commands : List String
admin_commands = "/clear" ∷ "/compact" ∷ "/context" ∷ "/cost" ∷ "/files" ∷ "/upload-trace" ∷ []

abbrev pub is_among : List String → String → Bool
is_among cs c = any (λ x. str_eq x c) cs

-- `(parsed.text || '').trim()`; `none` where it throws. A number 0 is a number here: neither its text nor
-- the empty one begins with a slash, so the gate lets both pass.
parsed_text : Option (Option Json) → Option String
parsed_text none = none
parsed_text (some (some (str s))) = some (trim s)
parsed_text (some (some (bool true))) = none
parsed_text (some (some (num n))) = none
parsed_text (some (some (arr xs))) = none
parsed_text (some (some (obj fs))) = none
parsed_text (some _) = some ""

abbrev strings : Items → List String
strings nil = []
strings (cons (str s) xs) = s ∷ strings xs
strings (cons _ xs) = strings xs

abbrev allowed_list : Option (Option Json) → Option (List String)
allowed_list (some (some (arr xs))) = some (strings xs)
allowed_list _ = none

by_role : Option (Option Json) → Json → Option (List String)
by_role (some (some (str role))) policy =
    if str_eq role "member"
    then allowed_list (property "allowedCommands" policy)
    else if str_eq role "administrator"
    then some []
    else none
by_role _ policy = none

-- `memberCommands`, from `parsed._nanoclawAuthorization`
member_commands : Option (Option Json) → Option (List String)
unfolding by_role
member_commands (some (some policy)) = by_role (property "role" policy) policy
member_commands _ = none

-- The text and `memberCommands`. What is caught is gated by the whole content; where that is a JSON value
-- it begins with no slash, and the empty text stands for it.
unfoldable pub read_content : Content → String × Option (List String)
unfolding parsed_text member_commands property
read_content (raw s) = (trim s, none)
read_content (json j) = elim (parsed_text (property "text" j)) [
  | none ↦ ("", none)
  | some text ↦ (text, member_commands (property "_nanoclawAuthorization" j))
]

-- `userId && …`
abbrev pub truthy_and : Option String → (String → Bool) → Bool
truthy_and none p = false
truthy_and (some user) p = not (str_eq user "") && p user

-- The decision on an admin command, or on any command under a policy.
unfoldable pub gate_policy :
    Central → Option (List String) → Option String → String → String → GateResult
gate_policy db none user group command =
    if is_among admin_commands command
    then (if truthy_and user (λ u. has_admin_privilege db u group) then pass else deny command)
    else pass
gate_policy db (some allowed) user group command =
    if truthy_and user (λ u. is_owner db u || is_global_admin db u)
    then pass
    else if is_among allowed command
    then pass
    else deny command

unfoldable pub gate_word :
    Central → Option (List String) → Option String → String → Option String → GateResult
unfolding gate_policy
gate_word db members user group none = pass
gate_word db members user group (some command) =
    if is_among filtered_commands command then filter else gate_policy db members user group command

module _ (lower : String → String) where
  -- The command of a text that begins with a slash.
  unfoldable pub command_of : String → Option String
  command_of text = if begins_with "/" text then some (lower (first_word text)) else none

  unfoldable pub gate_command : Central → Content → Option String → String → GateResult
  unfolding read_content command_of gate_word
  gate_command db content user group =
      let (text, members) = read_content content in
      gate_word db members user group (command_of text)
