-- ===== src/Publications.antt =====
-- durable-events/source-ledger.js in src: the ledger of the events that a source publishes, which
-- gives each event one outcome.
pub mod Types
pub mod Ledger
pub mod View
pub mod Refinement
pub mod Reports
pub mod Admissions
pub mod Outcomes
pub mod Capacity
pub mod Limits
mod Tests
