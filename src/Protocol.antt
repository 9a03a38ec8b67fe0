-- ===== src/Protocol.antt =====
-- src-tauri/src/protocol: the data that the components exchange.
pub mod Items
pub mod Utf8
pub mod TurnItems
pub mod Events
