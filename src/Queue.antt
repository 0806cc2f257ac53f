-- ===== src/Queue.antt =====
-- The job queue: its states and events, who may act on what, its hold, its table and its worker.
pub mod Events
pub mod Callers
pub mod Hold
pub mod Rows
pub mod Status
pub mod Worker
pub mod Requests
pub mod Recovery
