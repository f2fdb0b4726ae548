-- ===== src/Tests.antt =====
-- A counter as an application, and runs of src/server.ts, src/replica.ts and src/wire.ts on it.
mod Data
mod Authority
mod Replicas
mod Checks
mod Envelopes
mod Stores
mod Rows
mod Queues
mod Sessions
mod Clients
mod Transports
mod Assembly
