-- ===== src/Ax/Setup.antt =====
-- The workspace setup of AX (engine/ax/internal/workspace/setup.go).
pub mod Names
pub mod Machine
pub mod Git
pub mod Run
pub mod Attempts
pub mod Cloned
pub mod Fetched
pub mod Again
pub mod Examples
