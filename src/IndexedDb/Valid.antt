-- ===== src/IndexedDb/Valid.antt =====
-- What the check of src/indexeddb/record.ts accepts of a record of the replica's.
mod Entries
mod Outbox
mod Resolutions
pub use Entries.*
pub use Outbox.*
pub use Resolutions.*
