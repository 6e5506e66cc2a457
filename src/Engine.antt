-- ===== src/Engine.antt =====
-- The durable execution engine (apps/api/src/services).
pub mod Status
pub mod World
pub mod Action
pub mod Authority
pub mod Records
pub mod Retry
pub mod Transaction
pub mod Jobs
pub mod Endings
pub mod Cancellation
pub mod Delays
pub mod Leases
pub mod Keeps
pub mod Fencing
pub mod History
pub mod Invariant
pub mod Routing
pub mod Replay
