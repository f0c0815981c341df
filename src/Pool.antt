-- ===== src/Pool.antt =====
-- The thread pools of core/vca/async.cpp and desktop/src/qtc/ThreadPool.cpp, which are alike, and the
-- queue of commands of desktop/src/qtc/CommandQueue.cpp.
pub mod Worker
pub mod Drain
pub mod Exits
pub mod Commands
