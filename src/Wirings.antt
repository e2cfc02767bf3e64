-- ===== src/Wirings.antt =====
-- Which agents listen to a chat: the rows of messaging_groups and messaging_group_agents, with the statements
-- of db/messaging-groups.ts and the thread policy of channels/channel-defaults.ts.
use aimclaw.Base.{
  ℕ, String, str_eq, Bool, true, false, ◌&&◌, Option, none, some, List, [], ◌∷◌, filter, find, leb,
  if◌then◌else◌,
}
use aimclaw.Text.{is_before}
use aimclaw.Sessions.{SessionMode}
use aimclaw.Permissions.Access.{UnknownSenderPolicy, SenderScope}

pub record MessagingGroup : Type 0 where
  pub id : String
  pub channel_type : String
  pub platform_id : String
  pub instance : String
  pub is_group : Bool
  pub unknown_sender_policy : UnknownSenderPolicy
  pub is_denied : Bool

pub data EngageMode : Type 0 where
  pattern mention mention_sticky : EngageMode

pub data IgnoredMessagePolicy : Type 0 where
  drop accumulate : IgnoredMessagePolicy

pub record MessagingGroupAgent : Type 0 where
  pub messaging_group_id : String
  pub agent_group_id : String
  pub engage_mode : EngageMode
  pub engage_pattern : Option String
  pub sender_scope : SenderScope
  pub ignored_message_policy : IgnoredMessagePolicy
  pub session_mode : SessionMode
  pub priority : ℕ
  pub threads : Option Bool

-- ORDER BY (instance = channel_type) DESC, instance ASC
abbrev pub is_preferred : MessagingGroup → MessagingGroup → Bool
is_preferred g h =
    if str_eq g.instance g.channel_type
    then true
    else if str_eq h.instance h.channel_type
    then false
    else is_before g.instance h.instance

abbrev pub preferred : MessagingGroup → Option MessagingGroup → MessagingGroup
preferred g none = g
preferred g (some h) = if is_preferred g h then g else h

unfoldable pub get_messaging_group_by_platform :
    String → String → List MessagingGroup → Option MessagingGroup
unfolding is_before
get_messaging_group_by_platform channel platform [] = none
get_messaging_group_by_platform channel platform (g ∷ gs) =
    let rest = get_messaging_group_by_platform channel platform gs in
    if str_eq g.channel_type channel && str_eq g.platform_id platform
    then some (preferred g rest)
    else rest

-- by the exact instance
unfoldable pub get_messaging_group_of_instance :
    String → String → String → List MessagingGroup → Option MessagingGroup
get_messaging_group_of_instance channel platform instance groups =
    find
      (λ g.
        str_eq g.channel_type channel
        && (str_eq g.platform_id platform && str_eq g.instance instance))
      groups

-- ORDER BY priority DESC
pub insert_by_priority : MessagingGroupAgent → List MessagingGroupAgent → List MessagingGroupAgent
insert_by_priority a [] = a ∷ []
insert_by_priority a (b ∷ bs) =
    if leb b.priority a.priority then a ∷ b ∷ bs else b ∷ insert_by_priority a bs

pub by_priority : List MessagingGroupAgent → List MessagingGroupAgent
by_priority [] = []
by_priority (a ∷ rest) = insert_by_priority a (by_priority rest)

unfoldable pub get_messaging_group_agents :
    String → List MessagingGroupAgent → List MessagingGroupAgent
unfolding insert_by_priority by_priority
get_messaging_group_agents chat rows =
    by_priority (filter (λ a. str_eq a.messaging_group_id chat) rows)

-- The threads that a channel declares for direct messages and for groups.
pub record ChannelDefaults : Type 0 where
  pub dm_threads : Bool
  pub group_threads : Bool

unfoldable pub resolve_thread_policy : Option Bool → ChannelDefaults → Bool → Bool → Bool
resolve_thread_policy none declared is_group supports =
    (if is_group then declared.group_threads else declared.dm_threads) && supports
resolve_thread_policy (some wanted) declared is_group supports = wanted && supports
