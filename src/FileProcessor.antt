-- ===== src/FileProcessor.antt =====
-- `FileProcessor` of daemon/src/file_processor.cpp: the words of a file, from its name and from the
-- tokenizer for its extension.
pub mod Process
pub mod Words
