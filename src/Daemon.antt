-- ===== src/Daemon.antt =====
-- The daemon of daemon/src/daemon.cpp: what its parts make of one another's state.
pub mod World
pub mod Notify
pub mod Refresh
pub mod Session
