-- ===== src/Lib.antt =====
-- jiter: the JSON parser of crates/jiter, on bytes.
--
-- The program reads a slice of bytes by an index. `Parser` holds both, and every operation of it
-- returns a result or an error and moves the index. The number and the string decoders are functions
-- of the data and an index that return a value and the index behind it. `JsonValue` and `Jiter` build
-- on these, and `LazyIndexMap` keeps the entries of an object.
--
-- Files, with the code under crates/jiter/src/ that they model:
--
--   Prelude: comparisons, lists, slices and integers over the native numbers, and decidable equality.
--   Errors: errors.rs and `PartialMode` of lib.rs. `JsonResult` has two results that Rust's lacks:
--     `panic` for an index out of range or `unreachable!`, and `out_of_fuel`. `Errors.Position` is
--     `LinePosition::find`, `Errors.Display` holds the messages, and `Errors.Ensures` says that a result is an error of the program or a
--     value with a property.
--   Parse: parse.rs. A method of `Parser` is a function from a parser to a result and a parser, which
--     is kept on an error as `&mut self` keeps it. The decoders are section parameters.
--     `Parse.Whitespace`, `Parse.Ident` and `Parse.Runs` hold the theorems.
--   Number: number_decoder.rs. `Number.Table` is INT_CHAR_MAP, `Number.Chunk` is
--     `decode_int_chunk_fallback`, `Number.IntParse` is `IntParse::parse` with NumberInt,
--     `Number.Range` is NumberRange and `Number.Float` is NumberFloat and NumberAny.
--   Strings: string_decoder.rs. `Strings.Table` and `Strings.Chunk` are the tables and the scan for
--     the end of a chunk, `Strings.Escape` the `\u` escapes, `Strings.Utf8` the encoder and the check
--     of UTF-8 of Rust's standard library, and `Strings.Decode` the two decoders.
--   LazyIndexMap: lazy_index_map.rs. The `OnceLock` is an option, and `last_find` a field that `get`
--     returns changed.
--   Value: value.rs. `Value.Data` is JsonValue with the container that the parser is in, `Value.Take`
--     is `take_value` with `take_value_recursive`, for any decoders, `Value.Skip` is
--     `take_value_skip`, and `Value.Entry` is `parse`, `parse_with_config` and `parse_owned` with the
--     decoders that they name. `Value.Grammar` says which texts are JSON and what values they stand
--     for, with the literals of strings in `Strings.Decode.Literal` and those of numbers in
--     `Number.Float.Texts` and `Value.NumberTexts`.
--   StringCache: py_string_cache.rs. The static cache is an option of its entries, and a step on it
--     takes the interpreter's state too. `StringCache.Mode` is StringCacheMode with `get_key` and
--     `get_value`, and `StringCache.Serving` which strings go through the cache.
--   Python: python.rs, with FloatMode of py_lossless_float.rs; `Python.LosslessFloat` is the rest of
--     that file. `Python.State` is PythonParser,
--     `Python.Numbers` the three number parsers, `Python.Take` is `parse` with what it calls, and
--     `Python.Entry` is `python_parse`. The type parameters of PythonParser are the fields of
--     PythonParse.
--   Simd: simd_aarch64.rs, with `decode_array` of string_decoder.rs. `Simd.Mask` is about the mask of a
--     vector, and `Simd.Agree` compares the two scans of a string; `Simd.Int` is the integer chunk.
--   Jiter: jiter.rs. A method is a function from an iterator to a result and an iterator.
--     `Jiter.Errors` tells a wrong type, and `Jiter.Next` holds the methods.
--   Tests: runs at fixed inputs.
--
-- Numbers: `usize` is a natural number, as no index passes the length of the data by more than a few
-- bytes; `u64` arithmetic in the digits wraps at 2 ^ 64 and `as i64` is written out. A byte is a
-- natural number. The decoders are those of a
-- target without SIMD, with the feature num-bigint.
--
-- Fuel: the loop over chunks of 18 digits gets 300 rounds, as more than 4300 bytes end it with an
-- error; the loops over strings get a round for each byte of the data.
-- The loops over values get two rounds more than the data has bytes, as each round reads a byte.
-- The loop over vectors gets a round for each byte.
-- `py_take_value` gets one level more than the limit of containers.
--
-- Parameters: `NumberLibs` stands for lexical_parse_float and num_bigint. `BigIntLaws` says that the
-- operations on BigInt are those on integers, `LexicalReads` that `from_lexical_partial` reads the
-- floats of JSON, and `LexicalLaws` that a float takes a byte at least and that, of what begins with a
-- digit or with a minus and a digit, only that is refused which NumberRange refuses, as the code says
-- where it calls it. `PyStrings` and `PyObjects` stand for PyO3, for `PyUnicode_New` with the writes to
-- its data, for the interpreter and for the hash function of ahash, and `DecimalModule` for the class
-- Decimal of Python; `PyStringLaws` says that a new string has the text that it is made of.
--
-- Not modelled: the Python module, and the `Debug` and `Clone` implementations; the `Debug` text of a string in a message is a parameter.

pub mod Prelude
pub mod Errors
pub mod Parse
pub mod Number
pub mod Strings
pub mod LazyIndexMap
pub mod Value
pub mod Jiter
pub mod StringCache
pub mod Python
pub mod Simd
pub mod Tests
