-- ===== src/Sql.antt =====
-- The statements of SQL that the durable objects run, over a table as the list of its rows in the
-- order of insertion.
mod Tables
mod Rows
mod Keyed
mod Lookups
mod Least
mod Counts
mod Upserts
mod Replacing
mod Numbers
unfoldable pub use Tables.{select, delete, update, first, count, any_row, order_by, first_by}
pub use Rows.*
unfoldable pub use Keyed.{find}
pub use Keyed.*
pub use Lookups.*
pub use Least.*
pub use Counts.*
unfoldable pub use Upserts.{upsert}
pub use Upserts.*
pub use Replacing.*
pub use Numbers.*
