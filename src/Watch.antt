-- ===== src/Watch.antt =====
-- The observers of the user configuration: daemon/src/file_watcher.cpp and
-- daemon/src/file_scanner.cpp.
pub mod Sync
pub mod Erased
pub mod Added
pub mod Changed
pub mod Events
