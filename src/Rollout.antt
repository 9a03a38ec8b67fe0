-- ===== src/Rollout.antt =====
-- src-tauri/src/core/rollout: what a session persists, and its history rebuilt from that.
pub mod Policy
pub mod Truncation
pub mod Reconstruction
mod Tests
