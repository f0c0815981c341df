-- ===== src/Utf8.antt =====
-- `narrow_to_wide` and `wide_to_narrow` of core/vca/string.cpp, lines 51 to 63: the UTF-8
-- conversion that they take from the standard library.
pub mod Codec
pub mod RoundTrip
