-- ===== src/Config.antt =====
-- `UserConfig` of core/vca/config.cpp: the root directories, and the file that lists them.
pub mod RootDirs
pub mod Normal
pub mod User
pub mod Read
pub mod Written
