-- ===== src/Scheduler.antt =====
-- message-scheduling/backend.js in src: the jobs of one group, their occurrences, and the letters of
-- those that could not be delivered.
pub mod Types
pub mod Validate
pub mod Storage
pub mod Requests
pub mod Occurrences
pub mod Calls
pub mod Alarm
pub mod Soundness
pub mod Ledger
pub mod Submissions
pub mod Lifecycle
pub mod Runs
pub mod Interleaving
pub mod Wakeup
pub mod Growth
pub mod Retention
pub mod Once
pub mod Stopping
pub mod Repeats
pub mod Failing
mod Tests
