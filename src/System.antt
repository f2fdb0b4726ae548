-- ===== src/System.antt =====
-- The authority of src/server.ts and the replicas of src/replica.ts together: they share the
-- application's operations and exchange requests and responses.
pub mod Authority
pub mod Late
pub mod Growing
pub mod Session
