-- ===== src/Tests/Sessions.antt =====
-- The session databases.
use aimclaw.Base.{◌≡◌, ◌↔◌, refl, true, none, some, List, [], ◌∷◌, map, any, arith, ne_of_str_eq}
use aimclaw.SessionDb.{
  Status, pending, at, MessageIn, ProcessingAck, script_skip_error, has_id, insert_message,
  sync_processing_acks, count_due_messages,
}
use aimclaw.SessionDb.Seq.{IsWellFormed, insert_message-IsWellFormed, insert_message-eq-none_iff}
use aimclaw.SessionDb.Acks.{settled, sync_processing_acks-eq-map}
use aimclaw.Tests.Samples.{row, new_message, ack}

abbrev two_rows : List MessageIn
two_rows = row "a" 2 pending 0 ∷ row "b" 4 Status.completed 0 ∷ []

insert_test :
    insert_message two_rows (new_message "c")
    ≡ some (row "a" 2 pending 0 ∷ row "b" 4 Status.completed 0 ∷ row "c" 6 pending 0 ∷ [])
unfolding insert_message
insert_test = refl

insert_taken_test : insert_message two_rows (new_message "b") ≡ none
unfolding insert_message
insert_taken_test = refl

due_test : count_due_messages 5000 two_rows ≡ 1
unfolding count_due_messages
due_test = refl

two_rows-IsWellFormed : IsWellFormed two_rows
two_rows-IsWellFormed = ((((ne_of_str_eq "b" "a" refl, omega arith), tt), (tt, tt)), omega arith)

-- An id that is new.
abbrev three_rows : List MessageIn
three_rows = row "a" 2 pending 0 ∷ row "b" 4 Status.completed 0 ∷ row "c" 6 pending 0 ∷ []

insert_message-IsWellFormed_example : IsWellFormed three_rows
insert_message-IsWellFormed_example =
    insert_message-IsWellFormed two_rows three_rows (new_message "c") two_rows-IsWellFormed
      insert_test

insert_message-eq-none_iff_example :
    (insert_message two_rows (new_message "b") ≡ none) ↔ (any (has_id "b") two_rows ≡ true)
insert_message-eq-none_iff_example = insert_message-eq-none_iff two_rows (new_message "b")

abbrev acks : List ProcessingAck
acks = ack "a" script_skip_error (at 9) ∷ ack "b" script_skip_error (at 9) ∷ []

-- The crash of a script fails the pending row, and the completed one stays.
sync_test :
    sync_processing_acks two_rows acks
    ≡ row "a" 2 Status.failed 0 ∷ row "b" 4 Status.completed 0 ∷ []
unfolding sync_processing_acks
sync_test = refl

sync_processing_acks-eq-map_example :
    sync_processing_acks two_rows acks ≡ map (settled acks) two_rows
sync_processing_acks-eq-map_example = sync_processing_acks-eq-map acks two_rows
