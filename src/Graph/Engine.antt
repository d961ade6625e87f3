-- ===== src/Graph/Engine.antt =====
-- engine/ax/internal/taskgraph/engine.go. `Backend` is the interface that the engine calls, with its
-- `Save`, over the state `W` of the world outside; a method returns the new world beside an error too.
pub mod Defs
pub mod Step
pub mod Honest
pub mod Keep
pub mod Calls
pub mod Tick
pub mod Pause
pub mod Life
pub mod Adopted
unfoldable pub use Defs.*
unfoldable pub use Step.*
