-- ===== src/Zip.antt =====
-- `ZipInflater` of core/vca/zip_inflater.cpp.
pub mod Inflater
pub mod Chunks
