-- ===== src/IndexedDb.antt =====
-- src/indexeddb: the durable store of a replica, one record for each stream.
mod Record
mod Check
mod Value
pub mod Valid
pub mod Sound
pub mod Open
pub mod Store
pub mod Durable
pub mod Shrunk
pub mod Grown
pub mod Changed
pub mod Local
pub mod Merged
pub mod Counted
unfoldable pub use Record.*
unfoldable pub use Check.*
unfoldable pub use Value.*
