-- ===== src/Row.antt =====
-- src/client/row: replicated rows. The operations on a database of rows as an application of the log.
mod Types
mod Schema
mod Normalization
mod Keys
mod State
mod Interpreters
pub mod Normal
pub mod Table
pub mod Typed
pub mod Total
unfoldable pub use Types.*
unfoldable pub use Schema.*
unfoldable pub use Normalization.*
unfoldable pub use Keys.*
unfoldable pub use State.*
unfoldable pub use Interpreters.*
