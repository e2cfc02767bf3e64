-- ===== src/Delivery/World.antt =====
-- What a delivery works on, and what the code that it calls answers.
use aimclaw.Base.{ℕ, String, Bool, Option, List}
use aimclaw.Json.{Json, Items}
use aimclaw.Wirings.{MessagingGroup}
use aimclaw.Delivery.{MessageOut, Delivered, Attempt}
use aimclaw.Delivery.Questions.{PendingQuestion}

-- A row of agent_destinations with the target type 'channel'.
pub record Destination : Type 0 where
  pub agent_group_id : String
  pub target_id : String

-- A call of the adapter's `deliver`.
pub record Sent : Type 0 where
  pub message : String
  pub channel_type : String
  pub platform_id : String
  pub instance : String

-- What a delivery reads and writes: the table delivered, the attempts, the questions, and the calls
-- of the adapter so far.
pub record Queue : Type 0 where
  pub delivered : List Delivered
  pub attempts : List Attempt
  pub questions : List PendingQuestion
  pub sent : List Sent

-- What the code that a delivery calls answers. `destinations` is `none` without the table. A handler
-- answers `false`, and the others `none`, where they throw.
pub record Host : Type 0 where
  pub now : ℕ
  pub has_adapter : Bool
  pub groups : List MessagingGroup
  pub destinations : Option (List Destination)
  pub has_questions : Bool
  pub action : String → Option (Json → Bool)
  pub route_agent : MessageOut → Bool
  pub final : List (Json → MessageOut → Option (Option (Option String)))
  pub files : MessageOut → Items → Bool
  pub adapter : Sent → Option (Option String)
  pub settles_typing : MessageOut → Bool
  pub text_of_number : String → String
