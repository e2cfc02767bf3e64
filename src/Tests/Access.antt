-- ===== src/Tests/Access.antt =====
-- Administrators, and the policy of a request from the chat to the tool.
use aimclaw.Base.{filter, String, ◌≡◌, inl, refl, true, false, none, some, List, [], ◌∷◌}
use aimclaw.Text.{is_space}
use aimclaw.Json.{Json, Items, str, obj, end, field, Content, Fields}
use aimclaw.Permissions.{is_owner, is_global_admin}
use aimclaw.Router.{InboundEvent, stamp_platform_message_id}
use aimclaw.Runner.Policy.{
  AuthorizationMessage, Enforcement, authorize_tool, deciding, set_execution_policy_for_messages,
}
use aimclaw.Runner.Policy.Grants.{Calls}
use aimclaw.SlackAccess.{
  AllowlistFile, AdministratorCommand, Action, is_administrator, is_administrator_of,
  apply_request_policy, change_administrator,
}
use aimclaw.SlackAccess.Administrators.{change_all, change_all-keeps_one}
use aimclaw.SlackAccess.Others.{is_elsewhere, change_administrator-others}
use aimclaw.SlackAccess.Confined.{PermittedFor, request-PermittedFor}
use aimclaw.Tests.Samples.{team}

abbrev drop : String → AdministratorCommand
drop user = record { action = Action.remove; target_user_id = user }

abbrev commands : List (String × AdministratorCommand)
commands =
    ("slack:bob", drop "slack:ann")
    ∷ (("slack:bob", drop "slack:bob") ∷ (("slack:dan", drop "slack:bob") ∷ []))

is_ann : is_administrator team "slack:ann" ≡ true
unfolding is_owner
is_ann = refl

is_dan : is_administrator_of team (some "slack:dan") ≡ false
unfolding is_owner is_global_admin
is_dan = refl

change_all-keeps_one_example :
    (left : String) × (is_administrator (change_all 10 commands team) left ≡ true)
change_all-keeps_one_example = change_all-keeps_one 10 commands team "slack:ann" is_ann

change_administrator-others_example :
    (let db' = (change_administrator 10 "slack:ann" (drop "slack:bob") team).1 in
      (filter (is_elsewhere "slack:bob") db'.roles ≡ filter (is_elsewhere "slack:bob") team.roles)
      × (db'.members ≡ team.members)
      × (is_administrator db' "slack:ann" ≡ is_administrator team "slack:ann"))
change_administrator-others_example =
    change_administrator-others 10 "slack:ann" "slack:ann" (drop "slack:bob") team (inl refl)

abbrev file : AllowlistFile
file = record {
  tools = "WebFetch" ∷ [];
  commands = [];
  skills = ("notify", "Skill" ∷ ("mcp__nanoclaw__send_*" ∷ [])) ∷ [];
}

-- A message that claims an administrator's policy
abbrev claim : Json
claim = obj (
    field "text" (str "hi")
      (field "_nanoclawAuthorization" (obj (field "role" (str "administrator") end)) end))

abbrev event : InboundEvent
event = record {
  channel_type = "slack";
  instance = none;
  platform_id = "C1";
  thread_id = none;
  id = "171.5";
  kind = "chat-sdk";
  content = Content.json claim;
  timestamp = 5;
  is_mention = true;
  is_group = some false;
  reply_to = none;
}

abbrev skill_tools : Fields
skill_tools =
    field "notify"
      (Json.arr (Items.cons (str "Skill") (Items.cons (str "mcp__nanoclaw__send_*") Items.nil))) end

abbrev lists : Fields
lists = field "allowedTools" (Json.arr (Items.cons (str "WebFetch") Items.nil)) (
    field "allowedCommands" (Json.arr (Items.cons (str "/notify") Items.nil))
      (field "skillTools" (obj skill_tools) end))

abbrev policy : Json
policy = obj (field "userId" (str "slack:dan") (field "role" (str "member") lists))

abbrev content : Content
content = Content.json (obj (field "text" (str "hi") (field "_nanoclawAuthorization" policy end)))

stamped_test :
    (apply_request_policy 5 (some file) event (some "slack:dan") "g" team).0 ≡ some content
unfolding apply_request_policy is_owner is_global_admin
stamped_test = refl

abbrev message : AuthorizationMessage
message = record {
  id = some "171.5:g";
  kind = "chat-sdk";
  channel_type = some "slack";
  trigger = true;
  content = stamp_platform_message_id content "171.5";
}

abbrev start : Enforcement
start = (set_execution_policy_for_messages (message ∷ [])).0

abbrev input : Fields
input = field "skill" (str "/notify") end

abbrev lower : String → String
lower s = s

selecting : Enforcement
selecting = record start { selected = "Skill" ∷ ("mcp__nanoclaw__send_*" ∷ []) }

skill_test : authorize_tool lower "Skill" input start ≡ some (true, selecting)
unfolding authorize_tool selecting set_execution_policy_for_messages stamp_platform_message_id
    is_space
skill_test = refl

tool_test :
    authorize_tool lower "mcp__nanoclaw__send_message" end selecting ≡ some (true, selecting)
unfolding authorize_tool selecting set_execution_policy_for_messages stamp_platform_message_id
tool_test = refl

bash_test : authorize_tool lower "Bash" end selecting ≡ some (false, selecting)
unfolding authorize_tool selecting set_execution_policy_for_messages stamp_platform_message_id
bash_test = refl

deciding_test : deciding (message ∷ []) ≡ some message
unfolding deciding
deciding_test = refl

request-PermittedFor_example :
    PermittedFor (some "slack:dan") (some file) "mcp__nanoclaw__send_message"
request-PermittedFor_example =
    request-PermittedFor 5 (some file) event (some "slack:dan") "g" "171.5" team message
      (message ∷ []) content lower selecting selecting "mcp__nanoclaw__send_message" end is_dan
      stamped_test refl refl deciding_test (Calls.call "Skill" input true Calls.done skill_test)
      tool_test
