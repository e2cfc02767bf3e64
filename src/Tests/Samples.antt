-- ===== src/Tests/Samples.antt =====
-- Rows and tables that the tests share.
use aimclaw.Base.{ℕ, String, true, false, Option, none, some, [], ◌∷◌}
use aimclaw.Json.{raw}
use aimclaw.SessionDb.{Status, Stamp, MessageIn, NewMessage, AckStatus, ProcessingAck}
use aimclaw.Permissions.{Central, owner, admin}

abbrev pub row : String → ℕ → Status → ℕ → MessageIn
row id seq status tries = record {
  id = id;
  seq = seq;
  kind = "chat";
  timestamp = 0;
  status = status;
  process_after = none;
  recurrence = none;
  series_id = some id;
  tries = tries;
  trigger = true;
  platform_id = none;
  channel_type = none;
  thread_id = none;
  content = raw "hello";
  source_session_id = none;
  on_wake = false;
}

abbrev pub task : String → ℕ → Status → Option String → MessageIn
task id seq status recurrence = record (row id seq status 0) {
  kind = "task";
  recurrence = recurrence;
  series_id = some "s";
}

abbrev pub new_message : String → NewMessage
new_message id = record {
  id = id;
  kind = "chat";
  timestamp = 0;
  platform_id = none;
  channel_type = none;
  thread_id = none;
  content = raw "hello";
  process_after = none;
  recurrence = none;
  trigger = none;
  source_session_id = none;
  on_wake = none;
}

abbrev pub ack : String → AckStatus → Stamp → ProcessingAck
ack id status changed = record { message_id = id; status = status; status_changed = changed }

-- Ann owns the installation, Bob administers the group "g", Cat is a member of it, and Dan is nobody.
abbrev pub team : Central
team = record {
  users =
      record { id = "slack:ann"; kind = "slack"; display_name = none; created_at = 0 }
      ∷ record { id = "slack:bob"; kind = "slack"; display_name = none; created_at = 0 }
      ∷ record { id = "slack:cat"; kind = "slack"; display_name = none; created_at = 0 }
      ∷ record { id = "slack:dan"; kind = "slack"; display_name = none; created_at = 0 }
      ∷ [];
  agent_groups = "g" ∷ [];
  roles =
      record {
        user_id = "slack:ann";
        role = owner;
        agent_group_id = none;
        granted_by = none;
        granted_at = 1;
      }
      ∷ record {
        user_id = "slack:bob";
        role = admin;
        agent_group_id = some "g";
        granted_by = some "slack:ann";
        granted_at = 2;
      }
      ∷ [];
  members =
      record {
        user_id = "slack:cat";
        agent_group_id = "g";
        added_by = some "slack:bob";
        added_at = 3;
      }
      ∷ [];
}
