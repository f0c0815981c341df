-- ===== src/Paths.antt =====
-- `Path` of core/vca/filesystem.h, as the program uses it: a list of components that is rooted or
-- is read from the current directory.
pub mod Path
pub mod Parent
pub mod Fingerprint
pub mod Sampling
pub mod Parts
