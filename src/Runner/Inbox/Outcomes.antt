-- ===== src/Runner/Inbox/Outcomes.antt =====
-- What the host makes of the acknowledgements that the container writes.
use aimclaw.Base.{String, str_eq, List, any, find, if◌then◌else◌}
use aimclaw.SessionDb.{MessageIn, Status, ProcessingAck, AckStatus, is_terminal}
use aimclaw.SessionDb.Acks.{acks_it, settled, settle_by}

-- The first finished acknowledgement decides over a row; the last statement with its id has replaced the others.
abbrev decided : List ProcessingAck → MessageIn → MessageIn
decided acks m = settle_by (find (acks_it m) acks) m

-- The status of the row that the host makes of each acknowledgement: a failed one closes its row as completed.
abbrev pub closed_as : AckStatus → Status
closed_as AckStatus.script_skip_error = Status.failed
closed_as AckStatus.failed = Status.completed
closed_as AckStatus.completed = Status.completed
closed_as AckStatus.processing = Status.completed

-- A row of the container's list takes the outcome, and another what it had coming.
abbrev pub settled_by : AckStatus → List String → List ProcessingAck → MessageIn → MessageIn
settled_by status ids acks m =
    if is_terminal m.status
    then m
    else if any (λ id. str_eq id m.id) ids
    then record m { status = closed_as status }
    else settled acks m
