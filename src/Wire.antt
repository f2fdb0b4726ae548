-- ===== src/Wire.antt =====
-- src/wire.ts: requests and responses as JSON.
mod Read
mod Encode
mod Decode
pub mod Roundtrip
pub mod Entries
pub mod Responses
unfoldable pub use Read.*
unfoldable pub use Encode.*
unfoldable pub use Decode.*
