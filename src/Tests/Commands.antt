-- ===== src/Tests/Commands.antt =====
-- The command gate, with a `lower` that changes nothing: the commands here are in lower case.
use aimclaw.Base.{◌≡◌, refl, String, none, some}
use aimclaw.Json.{obj, str, field, end, Content, json, raw}
use aimclaw.Text.{is_space, trim, first_word, begins_with}
use aimclaw.CommandGate.{pass, filter, deny, gate_command}
use aimclaw.Permissions.{has_admin_privilege, is_owner, is_global_admin}
use aimclaw.Tests.Samples.{team}

abbrev same : String → String
same s = s

abbrev clear : Content
clear = json (obj (field "text" (str "  /clear now") end))

commands : Unit {0}
unfolding gate_command trim first_word begins_with is_space has_admin_privilege is_owner
    is_global_admin
commands = tt

gate_tests :
    (gate_command same team clear (some "slack:bob") "g" ≡ pass)
    × (gate_command same team clear (some "slack:cat") "g" ≡ deny "/clear")
    × (gate_command same team (raw "/login") (some "slack:ann") "g" ≡ filter)
    × (gate_command same team (raw "hello /login") none "g" ≡ pass)
unfolding commands
gate_tests = (refl, refl, refl, refl)
