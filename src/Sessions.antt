-- ===== src/Sessions.antt =====
-- The sessions: the statements of db/sessions.ts, and `resolveSession` and `resolveTaskSession` of
-- session-manager.ts. The folder of a new session is left out.
pub mod Resolve
use Prim.Native.String
use Prim.Native.Char.{Char, code}
use Prim.Native.String.{◌∷◌ as cons}
use aimclaw.Text.{folded}
use aimclaw.Base.{
  ℕ, ◌+◌, String, str_eq, is_text, Bool, true, false, not, ◌&&◌, ◌||◌, Option, none, some, List, [],
  ◌∷◌, ◌++◌, find, leb, ltb, ◌==◌, if◌then◌else◌,
}

pub record Session : Type 0 where
  pub id : String
  pub agent_group_id : String
  pub messaging_group_id : Option String
  pub thread_id : Option String
  pub is_active : Bool
  pub created_at : ℕ

pub data SessionMode : Type 0 where
  shared per_thread agent_shared : SessionMode

-- `a = ?` where the column may be NULL, and `a IS NULL`
abbrev pub same_thread : Option String → Option String → Bool
same_thread none none = true
same_thread none (some t) = false
same_thread (some t) thread = is_text thread t

-- An empty thread id is looked up like a missing one.
abbrev pub lookup_thread : Option String → Option String
lookup_thread none = none
lookup_thread (some t) = if str_eq t "" then none else some t

abbrev pub is_for_agent : String → String → Option String → Session → Bool
is_for_agent agent chat thread s =
    str_eq s.agent_group_id agent
    && (is_text s.messaging_group_id chat
        && (same_thread (lookup_thread thread) s.thread_id && s.is_active))

unfoldable pub find_session_for_agent :
    String → String → Option String → List Session → Option Session
find_session_for_agent agent chat thread rows = find (is_for_agent agent chat thread) rows

-- ORDER BY created_at DESC LIMIT 1
abbrev newer : Session → Option Session → Session
newer s none = s
newer s (some t) = if leb t.created_at s.created_at then s else t

pub newest : (Session → Bool) → List Session → Option Session
newest p [] = none
newest p (s ∷ ss) = let rest = newest p ss in if p s then some (newer s rest) else rest

-- LIKE with the text and `%` after it
is_like : String → String → Bool
is_like String.[] t = true
is_like (cons p ps) String.[] = false
is_like (cons p ps) (cons c cs) = folded p == folded c && is_like ps cs

abbrev is_system_thread : Option String → Bool
is_system_thread none = false
is_system_thread (some t) = is_like "system:" t

abbrev is_null : Option String → Bool
is_null none = true
is_null (some s) = false

unfoldable pub is_shared_by : String → Session → Bool
unfolding is_like
is_shared_by agent s =
    str_eq s.agent_group_id agent
    && (s.is_active && not (is_null s.messaging_group_id && is_system_thread s.thread_id))

abbrev pub get_session : String → List Session → Option Session
get_session id rows = find (λ s. str_eq s.id id) rows

unfoldable pub find_session_by_agent_group : String → List Session → Option Session
unfolding newest is_shared_by
find_session_by_agent_group agent rows = newest (is_shared_by agent) rows

abbrev pub is_system_session : String → String → Session → Bool
is_system_session agent thread s =
    str_eq s.agent_group_id agent
    && (is_null s.messaging_group_id && (is_text s.thread_id thread && s.is_active))

unfoldable pub find_system_session : String → String → List Session → Option Session
unfolding newest
find_system_session agent thread rows = newest (is_system_session agent thread) rows

abbrev pub task_thread_id : String → String
task_thread_id series = String.◌++◌ "system:tasks:" series

-- The session, the table, and whether it was created.
pub record Resolved : Type 0 where
  pub session : Session
  pub sessions : List Session
  pub created : Bool

abbrev create : Session → List Session → Resolved
create s rows = record { session = s; sessions = rows ++ s ∷ []; created = true }

abbrev existing_or : Option Session → Session → List Session → Resolved
existing_or none s rows = create s rows
existing_or (some found) s rows = record { session = found; sessions = rows; created = false }

abbrev new_session : ℕ → String → String → Option String → Option String → Session
new_session now id agent chat thread = record {
  id = id;
  agent_group_id = agent;
  messaging_group_id = chat;
  thread_id = thread;
  is_active = true;
  created_at = now;
}

-- `messagingGroupId` is null or empty
abbrev find_in_chat : String → Option String → Option String → List Session → Option Session
find_in_chat agent none thread rows = none
find_in_chat agent (some chat) thread rows =
    if str_eq chat "" then none else find_session_for_agent agent chat thread rows

unfoldable pub resolve_session :
    ℕ → String → String → Option String → Option String → SessionMode → List Session → Resolved
unfolding find_session_by_agent_group find_session_for_agent
resolve_session now id agent chat thread agent_shared rows =
    existing_or (find_session_by_agent_group agent rows) (new_session now id agent chat none) rows
resolve_session now id agent chat thread shared rows =
    existing_or (find_in_chat agent chat none rows) (new_session now id agent chat none) rows
resolve_session now id agent chat thread per_thread rows =
    existing_or (find_in_chat agent chat thread rows) (new_session now id agent chat thread) rows

unfoldable pub resolve_task_session : ℕ → String → String → String → List Session → Resolved
unfolding find_system_session
resolve_task_session now id agent series rows =
    existing_or (find_system_session agent (task_thread_id series) rows)
      (new_session now id agent none (some (task_thread_id series))) rows
