-- ===== src/Desktop.antt =====
-- The handlers of desktop/src/engine.
pub mod Handlers
pub mod Results
