-- ===== src/Ax.antt =====
-- The parts of the AX engine that keep the tasks (engine/ax).
pub mod Types
pub mod Memory
pub mod Redis
pub mod Server
pub mod Controller
pub mod Setup
pub mod Substrate
pub mod Tunnel
pub mod Examples
