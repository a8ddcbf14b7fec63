-- ===== src/Coordinator.antt =====
-- integrations/coordinator.js and coordinator-storage.js in src: the ledger of executions of one
-- integration, and the outbox of their effects.
pub mod Types
pub mod Storage
pub mod Submit
pub mod Effects
pub mod Calls
pub mod Submission
pub mod Alarm
pub mod Agreement
pub mod Invariant
pub mod Transitions
pub mod Stopping
pub mod Pruning
pub mod Committing
pub mod Commits
pub mod Replays
pub mod Resubmission
pub mod Naming
pub mod Delivery
pub mod Idle
pub mod Settling
pub mod Rounds
pub mod Interleaving
pub mod Wakeup
pub mod Closing
mod Tests
