-- ===== src/Config.antt =====
-- src-tauri/src/config: what the settings of a session may be.
pub mod Constraint
pub mod Values
pub mod Json
pub mod Layers
mod Tests
