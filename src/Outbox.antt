-- ===== src/Outbox.antt =====
-- The outbox of state events: src/state-events/outbox.js, with the numbers and the turns that it
-- gives out and the budget that it keeps.
mod Types
mod Admission
mod Accounts
mod Budget
mod Partitions
mod Runs
mod Sequences
mod Tests
