-- ===== src/Graph/Live.antt =====
-- Repeated calls of `Tick` (engine/ax/internal/taskgraph/engine.go) in a world that answers.
pub mod Track
pub mod Visit
pub mod Round
pub mod Ready
pub mod Complete
pub mod Examples
