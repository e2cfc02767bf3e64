-- ===== src/Sessions/Resolve.antt =====
-- Which session a message finds.
use mathlib.Core.List.{Memᴰ}
use aimclaw.Base.{
  leb, Bool-cases, ℕ, String, str_eq, str_eq_iff, str_eq_refl, ◌≡◌, ◌≢◌, inl, inr, refl, ap, Bool,
  true, false, Option, none, some, List, [], ◌∷◌, ◌++◌, find, find-holds, arith, Option-cases,
}
use aimclaw.Sessions.{
  Session, SessionMode, shared, per_thread, agent_shared, existing_or, find_in_chat, new_session,
  newest, same_thread, lookup_thread, find_session_for_agent, find_session_by_agent_group,
  is_for_agent, is_shared_by, is_system_session, task_thread_id, resolve_session,
  resolve_task_session,
}

find_concat :
    (p : Session → Bool) (rows : List Session) (s : Session)
    → find p rows ≡ none
    → p s ≡ true
    → find p (rows ++ s ∷ []) ≡ some s
find_concat p [] s e t = ground arith
find_concat p (r ∷ rows) s e t = ground (arith, find_concat p rows s)

newest_concat :
    (p : Session → Bool) (rows : List Session) (s : Session)
    → newest p rows ≡ none
    → p s ≡ true
    → newest p (rows ++ s ∷ []) ≡ some s
unfolding newest
newest_concat p [] s e t = ground arith
newest_concat p (r ∷ rows) s e t = ground (arith, newest_concat p rows s)

newest-holds :
    (p : Session → Bool) (rows : List Session) (s : Session) → newest p rows ≡ some s → p s ≡ true
unfolding newest
newest-holds p [] s e = cc
newest-holds p (r ∷ rows) s e = elim (Option-cases (newest p rows)) [
  | inl f ↦ ground (arith, f)
  | inr (t, f) ↦ ground (arith, f, newest-holds p rows t f)
]

-- A lookup that finds what has the property, and what is added where it found nothing.
module _ (p : Session → Bool) (find_in : List Session → Option Session) (rows : List Session)
    (found : (s : Session) → find_in rows ≡ some s → p s ≡ true)
    (added : (s : Session)
      → find_in rows ≡ none
      → p s ≡ true
      → find_in (rows ++ s ∷ []) ≡ some s) where
  existing_or_again :
      (s s' : Session)
      → p s ≡ true
      → let r = existing_or (find_in rows) s rows in
        (p r.session ≡ true)
        × (existing_or (find_in r.sessions) s' r.sessions
            ≡ record { session = r.session; sessions = r.sessions; created = false })
  existing_or_again s s' own = elim (Option-cases (find_in rows)) [
    | inl e ↦ rw e (own, rw (added s e own) refl)
    | inr (t, e) ↦ rw e (found t e, rw e refl)
  ]

own_thread : (t : String) → t ≢ "" → same_thread (lookup_thread (some t)) (some t) ≡ true
own_thread t n = ground (arith, str_eq_iff t "", str_eq_refl t)

new-is_for_agent :
    (now : ℕ) (id agent chat : String) (thread : Option String)
    → thread ≢ some ""
    → is_for_agent agent chat thread (new_session now id agent (some chat) thread) ≡ true
new-is_for_agent now id agent chat none n = rw (str_eq_refl agent, str_eq_refl chat) refl
new-is_for_agent now id agent chat (some t) n =
    rw (str_eq_refl agent, str_eq_refl chat, own_thread t (λ e. n (ap some e))) refl

find_session_for_agent_again :
    (agent chat : String) (thread : Option String) (rows : List Session) (s s' : Session)
    → is_for_agent agent chat thread s ≡ true
    → let r = existing_or (find_session_for_agent agent chat thread rows) s rows in
      (is_for_agent agent chat thread r.session ≡ true)
      × (existing_or (find_session_for_agent agent chat thread r.sessions) s' r.sessions
          ≡ record { session = r.session; sessions = r.sessions; created = false })
unfolding find_session_for_agent
find_session_for_agent_again agent chat thread rows s s' own =
    existing_or_again (is_for_agent agent chat thread) (find (is_for_agent agent chat thread)) rows
      (λ x e. find-holds (is_for_agent agent chat thread) rows x e)
      (λ x e h. find_concat (is_for_agent agent chat thread) rows x e h) s s' own

find_session_by_agent_group_again :
    (agent : String) (rows : List Session) (s s' : Session)
    → is_shared_by agent s ≡ true
    → let r = existing_or (find_session_by_agent_group agent rows) s rows in
      (is_shared_by agent r.session ≡ true)
      × (existing_or (find_session_by_agent_group agent r.sessions) s' r.sessions
          ≡ record { session = r.session; sessions = r.sessions; created = false })
unfolding find_session_by_agent_group
find_session_by_agent_group_again agent rows s s' own =
    existing_or_again (is_shared_by agent) (newest (is_shared_by agent)) rows
      (λ x e. newest-holds (is_shared_by agent) rows x e)
      (λ x e h. newest_concat (is_shared_by agent) rows x e h) s s' own

new-is_shared_by :
    (now : ℕ) (id agent chat : String)
    → is_shared_by agent (new_session now id agent (some chat) none) ≡ true
unfolding is_shared_by
new-is_shared_by now id agent chat = rw (str_eq_refl agent) refl

-- The session that an agent group shares, whether it is found or made, is one of its own and is active.
pub resolve_session-shared :
    (now : ℕ) (id agent : String) (rows : List Session)
    → let r = resolve_session now id agent none none agent_shared rows in
      (str_eq r.session.agent_group_id agent ≡ true) × (r.session.is_active ≡ true)
unfolding resolve_session is_shared_by
resolve_session-shared now id agent rows =
    let s = new_session now id agent none none in
    let own : is_shared_by agent s ≡ true = rw (str_eq_refl agent) refl in
    let (found, _) = find_session_by_agent_group_again agent rows s s own in
    (ground arith, ground arith)

newest-Mem :
    (p : Session → Bool) (rows : List Session) (s : Session) → newest p rows ≡ some s → Memᴰ s rows
unfolding newest
newest-Mem p [] s e = cc
newest-Mem p (r ∷ rows) s e = elim (Bool-cases (p r)) [
  | inr h ↦ Memᴰ.tail (newest-Mem p rows s (ground arith))
  | inl h ↦ elim (Option-cases (newest p rows)) [
    | inl f ↦ Memᴰ.head (ground (arith, f))
    | inr (t, f) ↦ elim (Bool-cases (leb t.created_at r.created_at)) [
      | inl l ↦ Memᴰ.head (ground (arith, f))
      | inr l ↦ Memᴰ.tail (newest-Mem p rows s (ground (arith, f)))
    ]
  ]
]

Mem-last : (rows : List Session) (s : Session) → Memᴰ s (rows ++ s ∷ [])
Mem-last [] s = Memᴰ.head refl
Mem-last (r ∷ rows) s = Memᴰ.tail (Mem-last rows s)

existing_or-Mem :
    (found : Option Session) (s : Session) (rows : List Session)
    → ((x : Session) → found ≡ some x → Memᴰ x rows)
    → Memᴰ (existing_or found s rows).session (existing_or found s rows).sessions
existing_or-Mem none s rows h = Mem-last rows s
existing_or-Mem (some x) s rows h = h x refl

-- The session that an agent group shares is in the table.
pub resolve_session-Mem :
    (now : ℕ) (id agent : String) (rows : List Session)
    → let r = resolve_session now id agent none none agent_shared rows in Memᴰ r.session r.sessions
unfolding resolve_session find_session_by_agent_group
resolve_session-Mem now id agent rows =
    existing_or-Mem (newest (is_shared_by agent) rows) (new_session now id agent none none) rows
      (newest-Mem (is_shared_by agent) rows)

-- The session is active, belongs to the agent group, and, unless the agent group shares one session, to
-- the chat and the thread: no thread where the chat shares one.
abbrev pub IsFor : String → String → Option String → SessionMode → Session → Type 0
IsFor agent chat thread shared s = is_for_agent agent chat none s ≡ true
IsFor agent chat thread per_thread s = is_for_agent agent chat thread s ≡ true
IsFor agent chat thread agent_shared s = is_shared_by agent s ≡ true

pub not_empty : {s : String} → s ≢ "" → str_eq s "" ≡ false
not_empty {s} n = ground (arith, str_eq_iff s "")

module _ (now : ℕ) (id agent chat : String) (thread : Option String) (rows : List Session) where
  -- A message finds a session of its agent group, chat and thread, as the mode of its wiring says, and an
  -- equal message later finds the same one, whatever time it is and whatever id is drawn. The chat has an id, and
  -- the thread, if there is one, is not empty.
  pub resolve_session_again :
      (mode : SessionMode) (now' : ℕ) (id' : String)
      → chat ≢ ""
      → thread ≢ some ""
      → let r = resolve_session now id agent (some chat) thread mode rows in
        IsFor agent chat thread mode r.session
        × (resolve_session now' id' agent (some chat) thread mode r.sessions
            ≡ record { session = r.session; sessions = r.sessions; created = false })
  unfolding resolve_session
  resolve_session_again shared now' id' c t = rw (not_empty c) (
      find_session_for_agent_again agent chat none rows (new_session now id agent (some chat) none)
        (new_session now' id' agent (some chat) none)
        (new-is_for_agent now id agent chat none (λ e. cc)))
  resolve_session_again per_thread now' id' c t = rw (not_empty c) (
      find_session_for_agent_again agent chat thread rows
        (new_session now id agent (some chat) thread)
        (new_session now' id' agent (some chat) thread)
        (new-is_for_agent now id agent chat thread t))
  resolve_session_again agent_shared now' id' c t =
      find_session_by_agent_group_again agent rows (new_session now id agent (some chat) none)
        (new_session now' id' agent (some chat) none) (new-is_shared_by now id agent chat)

is_system_session_new :
    (now : ℕ) (id agent thread : String)
    → is_system_session agent thread (new_session now id agent none (some thread)) ≡ true
is_system_session_new now id agent thread = rw (str_eq_refl agent, str_eq_refl thread) refl

-- Every series of an agent group has one session, which later calls find again, and it is active, of this
-- group and series, and of no chat.
pub resolve_task_session_again :
    (now now' : ℕ) (id id' agent series : String) (rows : List Session)
    → let r = resolve_task_session now id agent series rows in
      (is_system_session agent (task_thread_id series) r.session ≡ true)
      × (resolve_task_session now' id' agent series r.sessions
          ≡ record { session = r.session; sessions = r.sessions; created = false })
unfolding resolve_task_session
resolve_task_session_again now now' id id' agent series rows =
    let p = is_system_session agent (task_thread_id series) in
    existing_or_again p (newest p) rows (λ x e. newest-holds p rows x e)
      (λ x e h. newest_concat p rows x e h)
      (new_session now id agent none (some (task_thread_id series)))
      (new_session now' id' agent none (some (task_thread_id series)))
      (is_system_session_new now id agent (task_thread_id series))

group_of_existing :
    (agent : String) (o : Option Session) (s : Session) (rows : List Session)
    → ((x : Session) → o ≡ some x → str_eq x.agent_group_id agent ≡ true)
    → s.agent_group_id ≡ agent
    → (existing_or o s rows).session.agent_group_id ≡ agent
group_of_existing agent none s rows found e = e
group_of_existing agent (some x) s rows found e =
    (str_eq_iff x.agent_group_id agent).0 (found x refl)

group_of_chat :
    (agent : String) (chat thread : Option String) (rows : List Session) (s : Session)
    → find_in_chat agent chat thread rows ≡ some s
    → str_eq s.agent_group_id agent ≡ true
unfolding find_session_for_agent
group_of_chat agent none thread rows s e = cc
group_of_chat agent (some chat) thread rows s e =
    ground (arith, find-holds (is_for_agent agent chat thread) rows s (ground arith))

group_of_shared :
    (agent : String) (rows : List Session) (s : Session)
    → find_session_by_agent_group agent rows ≡ some s
    → str_eq s.agent_group_id agent ≡ true
unfolding find_session_by_agent_group
group_of_shared agent rows s e = ground (arith, newest-holds (is_shared_by agent) rows s e)

-- Whatever the chat, the thread and the mode are, the session is one of the agent group.
pub agent_group_id-resolve_session :
    (now : ℕ) (id agent : String) (chat thread : Option String) (mode : SessionMode)
    (rows : List Session)
    → (resolve_session now id agent chat thread mode rows).session.agent_group_id ≡ agent
unfolding resolve_session
agent_group_id-resolve_session now id agent chat thread shared rows =
    group_of_existing agent (find_in_chat agent chat none rows) _ rows
      (λ x e. group_of_chat agent chat none rows x e) refl
agent_group_id-resolve_session now id agent chat thread per_thread rows =
    group_of_existing agent (find_in_chat agent chat thread rows) _ rows
      (λ x e. group_of_chat agent chat thread rows x e) refl
agent_group_id-resolve_session now id agent chat thread agent_shared rows =
    group_of_existing agent (find_session_by_agent_group agent rows) _ rows
      (λ x e. ground (arith, group_of_shared agent rows x e)) refl
