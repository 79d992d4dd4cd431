-- ===== src/Number.antt =====
-- The number decoders of crates/jiter/src/number_decoder.rs, for the default feature `num-bigint`
-- and a target other than aarch64.
pub mod Table
pub mod Chunk
pub mod Libs
pub mod IntParse
pub mod Float
pub mod Range
