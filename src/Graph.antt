-- ===== src/Graph.antt =====
-- The task graph (engine/ax/internal/taskgraph): plans, their validation, the state of a run, and
-- the engine that advances it.
pub mod Model
pub mod Paths
pub mod Names
pub mod Validate
pub mod Impact
pub mod Progress
pub mod Engine
pub mod Live
pub mod Remote
pub mod Collect
pub mod Store
pub mod Samples
pub mod Examples
