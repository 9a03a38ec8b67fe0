-- ===== src/ContextManager.antt =====
-- src-tauri/src/core/context_manager: the history of a thread, and what of it a model is sent.
-- `Normalize` is normalize.rs, `History` is history.rs. The proofs are in the modules below these.
pub mod Normalize
pub mod History
