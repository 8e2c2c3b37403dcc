-- ===== src/Table.antt =====
-- The statements of SQL that the code issues, on a table as the list of its rows.
-- `UPDATE … WHERE`, the number of rows it changed, `DELETE … WHERE` and `SELECT … WHERE key = $1`.
mod Statements
mod Keys
mod Order
mod Selection
unfoldable pub use Statements.*
unfoldable pub use Keys.*
unfoldable pub use Order.*
unfoldable pub use Selection.*
