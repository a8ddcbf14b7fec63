-- ===== src/RelayBudget.antt =====
-- state-events/relay-work-budget.js in src: how much one turn of a relay may do.
pub mod Budget
pub mod Limits
mod Tests
