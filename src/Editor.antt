-- ===== src/Editor.antt =====
-- The code editor's controller (web/editor-src/controller.js).
pub mod State
pub mod Calls
pub mod Checks
pub mod Save
pub mod Open
pub mod Reports
pub mod Run
pub mod Invariant
pub mod Saves
pub mod Flushes
pub mod Opens
pub mod Retries
pub mod Runs
pub mod Starts
pub mod Completes
pub mod Content
pub mod Locks
pub mod Samples
mod Tests
pub mod Reachable
