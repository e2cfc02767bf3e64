-- ===== src/CommandGate/Authority.antt =====
-- Which commands reach the container, and for whom.
use aimclaw.Base.{String, ◌≡◌, ◌⊎◌, true, false, ◌||◌, Option, none, some, List}
use aimclaw.Permissions.{Central, is_owner, is_global_admin, has_admin_privilege}
use aimclaw.CommandGate.{admin_commands, is_among, truthy_and}

-- The sender may run the command: without a policy, if it is no admin command or the sender has admin
-- privilege over the group; with one, if it is on the list or the sender is an owner or a global admin.
abbrev pub MayRun : Central → Option (List String) → Option String → String → String → Type 0
MayRun db none user group command =
    (is_among admin_commands command ≡ false)
    ⊎ (truthy_and user (λ u. has_admin_privilege db u group) ≡ true)
MayRun db (some allowed) user group command =
    (is_among allowed command ≡ true)
    ⊎ (truthy_and user (λ u. is_owner db u || is_global_admin db u) ≡ true)
