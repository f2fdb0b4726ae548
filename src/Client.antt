-- ===== src/Client.antt =====
-- src/client: the sync client, as far as it decides when to synchronize and what to do on an error.
-- Promises are functions from a world, what the store, the transport and the view make of the outside,
-- to a result and the next world.
pub mod Action
mod Session
mod Retry
pub mod Queue
pub mod Transport
pub mod View
pub mod Operations
pub mod Config
pub mod Create
unfoldable pub use Session.*
unfoldable pub use Retry.*
unfoldable pub use Queue.*
