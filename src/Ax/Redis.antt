-- ===== src/Ax/Redis.antt =====
-- The Redis store of AX (engine/ax/internal/store/redis/store.go).
pub mod Client
pub mod Keys
pub mod Records
pub mod Tasks
pub mod Agree
pub mod Simulate
pub mod Implements
pub mod Refines
pub mod Listed
pub mod Examples
pub mod Resources
pub mod Subscription
pub mod RoundTrip
pub mod Batches
pub mod Samples
