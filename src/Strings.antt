-- ===== src/Strings.antt =====
-- The string decoders of crates/jiter/src/string_decoder.rs.
pub mod Table
pub mod Chunk
pub mod Escape
pub mod Utf8
pub mod Decode
