-- ===== src/Python.antt =====
-- The parser into Python objects of crates/jiter/src/python.rs, with PyO3 as a parameter.
pub mod Libs
pub mod State
pub mod Numbers
pub mod Take
pub mod Entry
pub mod Runs
pub mod Containers
pub mod Total
pub mod LosslessFloat
