-- ===== src/Invariants.antt =====
-- src/invariants.ts: the checks of one identity and of one committed operation. The checks of a
-- proposal batch, of a log and of a response are in the modules below.
pub mod Position
pub mod Batch
pub mod Log
pub mod Response
pub mod Identity
pub use Identity.*
