-- ===== src/Inbox.antt =====
-- platforms/twitch/eventsub-inbox.js in src: the durable inbox of one broadcaster's EventSub
-- messages.
pub mod Types
pub mod Validate
pub mod Calls
pub mod Drain
pub mod Invariant
pub mod Claims
pub mod Admission
pub mod Failures
pub mod Rounds
pub mod Wakeup
pub mod Batch
pub mod Interleaving
mod Tests
