-- ===== src/Replica.antt =====
-- src/replica.ts: the client replica. Every function takes a state and returns a new one, or throws.
mod State
mod Outbox
mod Decisions
mod Merge
pub mod Find
pub mod Canonical
pub mod Learn
pub mod Confirm
pub mod Follow
pub mod Converge
pub mod CaughtUp
pub mod Enqueue
pub mod Compact
pub mod Steps
pub mod Prepare
pub mod Local
pub mod Shrink
pub mod Waiting
pub mod View
pub mod Advance
unfoldable pub use State.*
unfoldable pub use Outbox.*
unfoldable pub use Decisions.*
unfoldable pub use Merge.*
