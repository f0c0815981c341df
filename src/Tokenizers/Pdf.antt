-- ===== src/Tokenizers/Pdf.antt =====
-- daemon/src/pdf_tokenizer.cpp. What is logged is left out.
pub mod Interpreter
pub mod Counted
pub mod Steps
pub mod Bounds
pub mod Hyphens
