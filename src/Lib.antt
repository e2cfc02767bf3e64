-- ===== src/Lib.antt =====
-- A model of the host of aimclaw, the program that routes chat messages to agents in containers, and
-- theorems about it.
--
-- The host keeps a central database of users, roles and groups, and for each session two databases:
-- inbound.db, which it writes, and outbound.db, which the container writes. A message that comes in
-- is routed to the agents of its chat, passes the access gate and the command gate, and becomes a row of
-- messages_in in the session of each. The container claims a
-- row in processing_ack and acknowledges it there. Once a minute the sweep visits each session: it reads
-- the acknowledgements back, wakes a container for due rows, kills one that is stuck, puts the rows of
-- a lost one off, arms recurring tasks again, and closes the sessions of spent tasks. Two polls drain the
-- messages that the container wrote to messages_out, and hand them to the channels.
--
-- Files, with the code that each models:
--   SessionDb         src/db/session-db.ts, over the tables of src/db/schema.ts. A table is a
--                     list of rows in the order of insertion.
--   Scheduling        src/modules/scheduling/db.ts. Scheduling.Recurrence is recurrence.ts beside it.
--   HostSweep         src/host-sweep.ts: `sweep_session` is sweepSession, `World` what its calls of the
--                     clock, the files and the container runner answer, `Swept` what it reads and
--                     writes.
--   Permissions       src/modules/permissions: db/user-roles.ts, db/agent-group-members.ts and
--                     db/users.ts. Permissions.Access has the gates of index.ts, Permissions.Senders the
--                     answer to the card for an unknown sender, Permissions.Approvers pickApprover
--                     of src/modules/approvals/primitive.ts.
--   Sessions          src/db/sessions.ts and the choice of a session in src/session-manager.ts.
--   Wirings           src/db/messaging-groups.ts and the thread policy of src/channels/channel-defaults.ts.
--   Router            src/router.ts: Router.Inbound is routeInbound, and Router.Routing its loop over the
--                     agents, with deliverToAgent. A call into another part is an `Effect`; `Host` and
--                     `Arrival` are what the hooks, the databases and the platform answer.
--   Delivery          src/delivery.ts. Delivery.Messages has deliverMessage and drainSession, with what
--                     the adapter and the registered handlers answer in `Host` of Delivery.World;
--                     Delivery.Questions the questions, with src/channels/ask-question.ts;
--                     Delivery.Inflight the guard of deliverSessionMessages; Delivery.Direct writeOutboundDirect of
--                     src/session-manager.ts.
--   MountSecurity     src/modules/mount-security/index.ts, over the POSIX paths of Text.Paths.
--   Runner            container/agent-runner/src: Runner.Inbox is db/messages-in.ts, Runner.Outbox is
--                     db/messages-out.ts, Runner.Policy is execution-policy.ts; `clock` gives the time that is written for a row.
--   SlackAccess       src/custom/slack-user-access.ts.
--   StateStore        src/state-sqlite.ts, over the tables of src/db/migrations/002-chat-sdk-state.ts.
--   AgentRouting      src/modules/agent-to-agent: agent-route.ts, message-gate.ts and the tables in db/;
--                     `Office` is the central tables with the inbound table of each session.
--   Destinations      write-destinations.ts of src/modules/agent-to-agent with replaceDestinations, and in
--                     container/agent-runner/src destinations.ts with resolveRouting of mcp-tools/core.ts.
--   Attachments       src/attachment-safety.ts and src/inbox-safety.ts, over what the file system answers;
--                     Attachments.Forwarding is forwardAttachedFiles of agent-route.ts.
--   RequestAuthority  src/custom/request-authority.ts.
--   CircuitBreaker    src/circuit-breaker.ts.
--   CommandGate       src/command-gate.ts, over the string methods in Text and the values in Json.
--   Tests             runs at concrete inputs.
-- Base passes the library on, with tests and lists over the native numbers.
--
-- Function names are the source's in snake case. A call that throws is `none`. An instant is a number
-- of milliseconds; a text column that holds one is a `Stamp`, which may be invalid. A difference of
-- instants stops at 0, and is only compared with bounds that are not negative. Numbers are unbounded:
-- the source's are exact up to 2^53, far above every row number and instant. Every loop runs over a list
-- that is read before it, so all are structural recursion and none needs fuel.
--
-- Parameters stand for code outside the repository and for chance: the cron parser with its time zone
-- (`cron`, `none` where it throws), the ids that are drawn (`new_id`), and toLowerCase (`lower`); `Paths` holds the home, the working directory and what realpath
-- answers; the fields of
-- the two `Host` records that are functions stand for the chat platform, the database driver, regular
-- expressions and the handlers that are registered at run time.
-- Not modelled: logging; opening files and databases; the timer that repeats the sweep; the channels'
-- and the agent's libraries; setup and the migrations of old databases.
pub mod Base
pub mod Text
pub mod Json
pub mod SessionDb
pub mod Scheduling
pub mod HostSweep
pub mod Permissions
pub mod Sessions
pub mod Wirings
pub mod Router
pub mod Delivery
pub mod RequestAuthority
pub mod CircuitBreaker
pub mod CommandGate
pub mod Tests
pub mod MountSecurity
pub mod Runner
pub mod SlackAccess
pub mod StateStore
pub mod AgentRouting
pub mod Destinations
pub mod Attachments
