-- ===== src/Text.antt =====
-- core/vca/string.cpp but for the case conversion, which is in `CaseMappings`, the encodings,
-- which are in `Utf8`, and the XML reader, which is in `Xml`. A text is a list of code points.
pub mod Boost
pub mod Chars
pub mod Split
pub mod Tokenize
pub mod Words
pub mod RoundTrip
pub mod Reference
