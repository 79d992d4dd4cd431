-- ===== src/Tests/Vectors.antt =====
-- Tests of crates/jiter/src/simd_aarch64.rs.
use jiter.Prelude.{◌≡◌, refl, true, false, Bytes}
use jiter.Prelude.Text.{codes}
use jiter.Errors.{ok}
use jiter.Strings.Table.{json_ascii, char_type}
use jiter.Strings.Chunk.{backslash_next, decode_fallback}
use jiter.Simd.{decode_string_chunk}
use jiter.Number.Chunk.{ongoing, done}
use jiter.Number.Chunk.Laws.{decimal}
use jiter.Simd.Int.{decode_int_chunk, full_calc}
use jiter.Simd.Int.Value.{full_calc-decimal}
use jiter.Simd.Agree.{decode_string_chunk-decode_fallback}

abbrev long : Bytes
long = codes "\"a text of more than one vector, with a \\n in it\""

decode_string_chunk-long : decode_string_chunk long 1 true false ≡ ok (backslash_next, true, 40)
unfolding decode_string_chunk json_ascii char_type
decode_string_chunk-long = refl

decode_string_chunk-decode_fallback_example :
    decode_string_chunk long 1 true false ≡ decode_fallback long 1 true false
decode_string_chunk-decode_fallback_example = decode_string_chunk-decode_fallback long 1 true false

abbrev sixteen : Bytes
sixteen = codes "1234567890123456"

decode_int_chunk-sixteen :
    decode_int_chunk (codes "123456789012345678,") 0 ≡ ok (ongoing 1234567890123456, 16)
unfolding decode_int_chunk
decode_int_chunk-sixteen = refl

decode_int_chunk-three : decode_int_chunk (codes "x305,             ") 1 ≡ ok (done 305, 4)
unfolding decode_int_chunk
decode_int_chunk-three = refl

decode_int_chunk-twelve :
    decode_int_chunk (codes "123456789012]    ") 0 ≡ ok (done 123456789012, 12)
unfolding decode_int_chunk
decode_int_chunk-twelve = refl

full_calc-decimal_example : full_calc sixteen 16 ≡ ok (decimal 0 sixteen)
full_calc-decimal_example =
    full_calc-decimal b'1' b'2' b'3' b'4' b'5' b'6' b'7' b'8' b'9' b'0' b'1' b'2' b'3' b'4' b'5'
      b'6'
      (
        refl,
        (
          refl,
          (
            refl,
            (
              refl,
              (
                refl,
                (
                  refl,
                  (
                    refl,
                    (refl, (refl, (refl, (refl, (refl, (refl, (refl, (refl, (refl, tt))))))))),
                  ),
                ),
              ),
            ),
          ),
        ),
      )
