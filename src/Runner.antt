-- ===== src/Runner.antt =====
-- The program in the container, container/agent-runner/src. It reads the tables of inbound.db, and writes
-- those of outbound.db.
pub mod Inbox
pub mod Outbox
pub mod Policy
