-- ===== src/Daemon.antt =====
-- The daemon `screentimed`: crates/daemon/src.
pub mod Config
pub mod State
pub mod Sessions
pub mod Enforcement
pub mod Service
pub mod Boot
pub mod Midnight
pub mod Ipc
pub mod Control
