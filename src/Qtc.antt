-- ===== src/Qtc.antt =====
-- The model behind the desktop client's views, desktop/src/qtc: nodes with values, the recording of
-- their changes, and undo and redo.
pub mod Node
pub mod Model
pub mod Writes
pub mod Undo
pub mod Recording
