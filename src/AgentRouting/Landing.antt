-- ===== src/AgentRouting/Landing.antt =====
-- Where a message that is sent lands.
use mathlib.Core.Path.{subst}
use mathlib.Core.List.{Memᴰ, append-nil}
use aimclaw.Base.{
  false, [], find, find-Mem, ℕ, String, str_eq, str_eq_iff, ◌≡◌, ◌⊎◌, refl, sym, ap, ◌∙◌, true,
  Option, none, some, List, arith, Bool-cases, inl, inr,
}
use aimclaw.Json.{Content}
use aimclaw.SessionDb.{MessageIn, has_id, new_row, insert_message}
use aimclaw.Sessions.{Session, Resolved}
use aimclaw.Sessions.Resolve.{resolve_session-shared, resolve_session-Mem}
use aimclaw.AgentRouting.Replies.{insert_message-finds, written-eq}
use aimclaw.AgentRouting.{
  Office, RoutableAgentMessage, Files, Routed, sent, a2a_message, with_inbound, written, write_to,
  perform_agent_route, resolve_target_session, origin_of, is_candidate, candidate_of, resolved_with,
  forward_file_attachments,
}

-- An active session of the agent group
abbrev IsOf : String → Session → Type 0
IsOf target s = (str_eq s.agent_group_id target ≡ true) × (s.is_active ≡ true)

-- The session is in the table.
abbrev IsIn : Resolved → Type 0
IsIn r = Memᴰ r.session r.sessions

resolved_with-IsIn :
    (now : ℕ) (id target : String) (rows : List Session) (candidate : Option Session)
    → ((x : Session) → candidate ≡ some x → Memᴰ x rows)
    → IsIn (resolved_with now id target rows candidate)
resolved_with-IsIn now id target rows none h = resolve_session-Mem now id target rows
resolved_with-IsIn now id target rows (some s) h = elim (Bool-cases (is_candidate target s)) [
  | inl e ↦ rw (e, resolved_with) (h s refl)
  | inr e ↦ rw (e, resolved_with) (resolve_session-Mem now id target rows)
]

candidate_of-Mem :
    (id : Option String) (rows : List Session) (x : Session)
    → candidate_of id rows ≡ some x
    → Memᴰ x rows
candidate_of-Mem none rows x e = cc
candidate_of-Mem (some id) rows x e = find-Mem (λ s. str_eq s.id id) rows x e

resolve_target_session-IsIn :
    (now : ℕ) (id : String) (msg : RoutableAgentMessage) (source : Session) (target : String)
    (o : Office)
    → IsIn (resolve_target_session now id msg source target o)
unfolding resolve_target_session
resolve_target_session-IsIn now id msg source target o =
    let origin = origin_of msg target (o.inbound source.id) in
    resolved_with-IsIn now id target o.sessions (candidate_of origin o.sessions)
      (candidate_of-Mem origin o.sessions)

resolved_with-IsOf :
    (now : ℕ) (id target : String) (rows : List Session) (candidate : Option Session)
    → IsOf target (resolved_with now id target rows candidate).session
resolved_with-IsOf now id target rows none = resolve_session-shared now id target rows
resolved_with-IsOf now id target rows (some s) = elim (Bool-cases (is_candidate target s)) [
  | inl e ↦ (ground arith, ground arith)
  | inr e ↦ rw e (resolve_session-shared now id target rows)
]

resolve_target_session-IsOf :
    (now : ℕ) (id : String) (msg : RoutableAgentMessage) (source : Session) (target : String)
    (o : Office)
    → IsOf target (resolve_target_session now id msg source target o).session
unfolding resolve_target_session
resolve_target_session-IsOf now id msg source target o =
    resolved_with-IsOf now id target o.sessions
      (candidate_of (origin_of msg target (o.inbound source.id)) o.sessions)

-- The row of the message stands in the inbound table of an active session of the agent group, one of the table of
-- sessions: it says whom it is from, and wakes the agent. The inbound table of no other session changes.
abbrev pub LandsIn : String → Session → String → String → Office → Office → Type 0
LandsIn id source target sid o o' =
    ((s : Session) × (Memᴰ s o'.sessions × IsOf target s × (s.id ≡ sid)))
    × ((row : MessageIn) × ((find (has_id id) (o'.inbound sid) ≡ some row)
          × (row.source_session_id ≡ some source.id)
          × (row.platform_id ≡ some source.agent_group_id)
          × (row.trigger ≡ true)))
    × ((other : String) → (other ≡ sid) ⊎ (o'.inbound other ≡ o.inbound other))

with_inbound-others :
    (session other : String) (rows : List MessageIn) (o : Office)
    → str_eq other session ≡ false
    → (with_inbound session rows o).inbound other ≡ o.inbound other
with_inbound-others session other rows o n =
    ground (arith, str_eq_iff session other, str_eq_iff other session)

written-frame :
    (session sid : String) (o o' : Office) (rows : Option (List MessageIn))
    → written session o rows ≡ (sent sid, o')
    → (session ≡ sid)
      × (o'.sessions ≡ o.sessions)
      × ((other : String) → (other ≡ sid) ⊎ (o'.inbound other ≡ o.inbound other))
written-frame session sid o o' none e = cc
written-frame session sid o o' (some rows) e =
    let same : session ≡ sid = cc in
    (
      same,
      sym (ap (λ (q : Routed × Office). q.1.sessions) e),
      λ other. elim (Bool-cases (str_eq other session)) [
        | inl h ↦ inl ((str_eq_iff other session).0 h ∙ same)
        | inr n ↦ inr (
            sym (ap (λ (q : Routed × Office). q.1.inbound other) e)
            ∙ with_inbound-others session other rows o n)
      ],
    )

module _ (now : ℕ) (id new_id : String) (files : Files) (msg : RoutableAgentMessage)
    (source : Session) (target : String) where
  written-LandsIn :
      (sid : String) (s : Session) (o o' : Office) (content : Content)
      → Memᴰ s o.sessions
      → IsOf target s
      → written s.id o (insert_message (o.inbound s.id) (a2a_message now id source content))
        ≡ (sent sid, o')
      → LandsIn id source target sid o o'
  written-LandsIn sid s o o' content there of e =
      let message = a2a_message now id source content in
      let rows = insert_message (o.inbound s.id) message in
      let stands : rows ≡ some (o'.inbound sid) = written-eq s.id sid o o' rows e in
      let (same, table, others) = written-frame s.id sid o o' rows e in
      (
        (s, (subst (Memᴰ s) (sym table) there, of, same)),
        (
          new_row (o.inbound s.id) message,
          (
            ap (find (has_id id)) (sym (append-nil (o'.inbound sid)))
                ∙ insert_message-finds (o.inbound s.id) (o'.inbound sid) [] message stands,
            refl,
            refl,
            refl,
          ),
        ),
        others,
      )

  write_to-LandsIn :
      (sid : String) (r : Resolved) (o o' : Office) (content : Option Content)
      → IsIn r
      → IsOf target r.session
      → write_to now id new_id files source r o content ≡ (sent sid, o')
      → LandsIn id source target sid o o'
  write_to-LandsIn sid r o o' none there of e = cc
  write_to-LandsIn sid r o o' (some content) there of e =
      written-LandsIn sid r.session (record o { sessions = r.sessions }) o' (files.stored content)
        there of e

  pub perform_agent_route-LandsIn :
      (sid : String) (o o' : Office)
      → perform_agent_route now id new_id files msg source target o ≡ (sent sid, o')
      → LandsIn id source target sid o o'
  unfolding perform_agent_route
  perform_agent_route-LandsIn sid o o' e =
      write_to-LandsIn sid (resolve_target_session now new_id msg source target o) o o'
        (forward_file_attachments files msg.content)
        (resolve_target_session-IsIn now new_id msg source target o)
        (resolve_target_session-IsOf now new_id msg source target o) e
