-- ===== src/Value.antt =====
-- The values of crates/jiter/src/value.rs and the functions that read or skip them.
pub mod Data
pub mod Take
pub mod Skip
pub mod Total
pub mod Entry
pub mod Owned
pub mod Grammar
pub mod NumberTexts
pub mod Accepts
pub mod Consumes
pub mod TooDeep
