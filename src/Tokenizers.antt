-- ===== src/Tokenizers.antt =====
-- The tokenizers of daemon/src: each reads the beginning of a file and gives the words of its text.
pub mod Read
pub mod Txt
pub mod Tex
pub mod Xml
pub mod Zipxml
pub mod Commands
pub mod Lines
pub mod Files
pub mod Pdf
