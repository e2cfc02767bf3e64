-- ===== src/AgentRouting/Replies.antt =====
-- Where the answer to a message of an agent goes.
use aimclaw.Base.{
  ℕ, String, str_eq, str_eq_refl, ◌≡◌, ◌≢◌, refl, sym, ap, ◌∙◌, true, false, ◌||◌, Option, none,
  some, List, [], ◌∷◌, ◌++◌, any, find, ◌==◌, arith, Bool-cases, inl, inr,
}
use aimclaw.Json.{Content}
use aimclaw.SessionDb.{MessageIn, NewMessage, has_id, new_row, insert_row, insert_message}
use aimclaw.Sessions.Resolve.{not_empty}
use aimclaw.Sessions.{get_session, Session, Resolved}
use aimclaw.AgentRouting.{
  Office, RoutableAgentMessage, Files, Routed, sent, a2a_message, with_inbound, written, write_to,
  perform_agent_route, resolve_target_session, get_inbound_source_session_id, origin_of,
  forward_file_attachments,
}

free_of_id :
    (row : MessageIn) (rows : List MessageIn)
    → any (λ m. str_eq m.id row.id || m.seq == row.seq) rows ≡ false
    → any (has_id row.id) rows ≡ false
free_of_id row [] e = refl
free_of_id row (m ∷ ms) e = ground (arith, free_of_id row ms)

find_after :
    (row : MessageIn) (rows more : List MessageIn)
    → any (has_id row.id) rows ≡ false
    → find (has_id row.id) ((rows ++ row ∷ []) ++ more) ≡ some row
find_after row [] more e = rw (str_eq_refl row.id) refl
find_after row (m ∷ ms) more e = ground (arith, find_after row ms more)

-- The row that a message becomes is found under its id, whatever is written after it.
pub insert_message-finds :
    (rows rows' more : List MessageIn) (message : NewMessage)
    → insert_message rows message ≡ some rows'
    → find (has_id message.id) (rows' ++ more) ≡ some (new_row rows message)
unfolding insert_message insert_row
insert_message-finds rows rows' more message e =
    let row = new_row rows message in
    elim (Bool-cases (any (λ m. str_eq m.id row.id || m.seq == row.seq) rows)) [
      | inl clash ↦ ground arith
      | inr free ↦
          let same : rows ++ row ∷ [] ≡ rows' = ground arith in
          rw (← same) (find_after row rows more (free_of_id row rows free))
    ]

with_inbound-same :
    (session : String) (rows : List MessageIn) (o : Office)
    → (with_inbound session rows o).inbound session ≡ rows
with_inbound-same session rows o = rw (str_eq_refl session) refl

pub written-eq :
    (session sid : String) (o o' : Office) (rows : Option (List MessageIn))
    → written session o rows ≡ (sent sid, o')
    → rows ≡ some (o'.inbound sid)
written-eq session sid o o' none e = cc
written-eq session sid o o' (some rows) e =
    let same : session ≡ sid = cc in
    let kept : (with_inbound session rows o).inbound sid ≡ o'.inbound sid =
      ap (λ (q : Routed × Office). q.1.inbound sid) e in
    ap some (
      sym (with_inbound-same session rows o)
      ∙ (ap (with_inbound session rows o).inbound same ∙ kept))

written-session :
    (session sid : String) (o o' : Office) (rows : Option (List MessageIn))
    → written session o rows ≡ (sent sid, o')
    → session ≡ sid
written-session session sid o o' none e = cc
written-session session sid o o' (some rows) e = cc

module _ (now : ℕ) (id new_id : String) (files : Files) (source : Session) (sid : String)
    (o o' : Office) where
  write_to-finds :
      (r : Resolved) (content : Option Content)
      → write_to now id new_id files source r o content ≡ (sent sid, o')
      → (more : List MessageIn)
      → get_inbound_source_session_id id (o'.inbound sid ++ more) ≡ some source.id
  unfolding get_inbound_source_session_id
  write_to-finds r none e more = cc
  write_to-finds r (some content) e more =
      let message = a2a_message now id source (files.stored content) in
      let rows = o.inbound r.session.id in
      rw
        (insert_message-finds rows (o'.inbound sid) more message (
          written-eq r.session.id sid (record o { sessions = r.sessions }) o'
            (insert_message rows message) e))
        refl

module _ (now : ℕ) (id new_id : String) (files : Files) where
  -- An answer returns: once a message of the session `a` is sent to the session `sid`, an answer to it from that
  -- session, whatever rows have come to it since, goes to `a` itself, although the agent group of `a` may have
  -- newer sessions. Its id and the drawn one are not empty, and `a` is in the table and active.
  pub perform_agent_route-returns :
      (message answer : RoutableAgentMessage) (a b : Session) (target : String)
      (o o' later : Office) (more : List MessageIn) (now' : ℕ) (id' : String)
      → perform_agent_route now id new_id files message a target o ≡ (sent b.id, o')
      → answer.in_reply_to ≡ some id
      → later.inbound b.id ≡ o'.inbound b.id ++ more
      → get_session a.id later.sessions ≡ some a
      → a.is_active ≡ true
      → id ≢ ""
      → a.id ≢ ""
      → (resolve_target_session now' id' answer b a.agent_group_id later).session ≡ a
  unfolding perform_agent_route resolve_target_session origin_of
  perform_agent_route-returns message answer a b target o o' later more now' id' e reply rows there
        active n m =
      let found =
        write_to-finds now id new_id files a b.id o o'
          (resolve_target_session now new_id message a target o)
          (forward_file_attachments files message.content) e more in
      rw (rows, reply, not_empty n, found, not_empty m, there, str_eq_refl a.agent_group_id, active)
        refl
