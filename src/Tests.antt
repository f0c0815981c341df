-- ===== src/Tests.antt =====
-- Runs of the model at concrete inputs: the theorems applied where their hypotheses hold.
mod Words
mod Codec
mod Reader
mod Files
mod Case
mod Dirs
mod Cache
mod Undo
mod Store
mod Processor
mod Pool
mod Pdf
mod Zip
mod Prints
mod Http
mod Desktop
mod Watch
pub mod Sample
