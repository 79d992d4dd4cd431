-- ===== src/Tests.antt =====
-- Runs of the model, and each theorem at an input that meets its hypotheses.
mod Parsing
mod Numbers
mod Decoding
mod Maps
mod Values
mod Caching
mod Vectors
mod Scanner
mod Texts
