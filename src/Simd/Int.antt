-- ===== src/Simd/Int.antt =====
-- `decode_int_chunk` of crates/jiter/src/simd_aarch64.rs: up to 16 digits at a time.
pub mod Value
use jiter.Prelude.{
  ℕ, zero, suc, ◌+◌, ◌-◌, ◌*◌, ◌/◌, ◌%◌, ◌^◌, Bool, true, false, ◌||◌, not, Option, some, none, [],
  ◌∷◌, ◌++◌, Bytes, length, take, drop, replicate, get_elem?, leb, within, ◌==◌, if◌then◌else◌,
}
use jiter.Prelude.Int.{u64_mod}
use jiter.Prelude.Slices.{get_range}
use jiter.Errors.{JsonResult, ok, panic, ◌>>=◌}
use jiter.Number.Chunk.{IntChunk, ongoing, done, float, is_float_byte, decode_int_chunk_fallback}
use jiter.Simd.{simd_step, lanes, simd_gt_16, simd_lt_16, simd_or_16, u64_of, is_zero}

-- `vsubq_u8` and `vsub_u8`, and the multiplications of lanes of so many bits: both wrap.
abbrev pub simd_sub : Bytes → Bytes → Bytes
simd_sub = lanes λ a b. (a + 256 - b) % 256

abbrev pub simd_mul : ℕ → Bytes → Bytes → Bytes
simd_mul bits = lanes λ a b. a * b % 2 ^ bits

-- `vpaddl`: two lanes are added in one of twice the bits.
unfoldable pub simd_add : Bytes → Bytes
simd_add [] = []
simd_add (a ∷ []) = []
simd_add (a ∷ b ∷ xs) = (a + b) ∷ simd_add xs

-- `vext`: the last lanes of the one from `n` on, and the first `n` of the other.
abbrev pub combine_vecs : ℕ → Bytes → Bytes → Bytes
combine_vecs n xs ys = drop n xs ++ take n ys

-- The constants repeat two numbers.
unfoldable pub alternating : ℕ → ℕ → ℕ → Bytes
alternating zero a b = []
alternating (suc n) a b = a ∷ b ∷ alternating n a b

unfoldable pub get_digit_mask : Bytes → Bytes
get_digit_mask byte_vec =
    simd_or_16 (simd_lt_16 byte_vec (replicate 16 b'0')) (simd_gt_16 byte_vec (replicate 16 b'9'))

-- `u64::trailing_zeros`, by the bits left.
unfoldable pub trailing_zeros : ℕ → ℕ → ℕ
trailing_zeros zero n = 0
trailing_zeros (suc bits) n =
    let rest = suc (trailing_zeros bits (n / 2)) in if n % 2 == 1 then 0 else rest

unfoldable pub find_end : Bytes → ℕ
unfolding trailing_zeros u64_of
find_end digit_mask =
    let first = u64_of (take 8 digit_mask) in
    if not (first == 0)
    then trailing_zeros 64 first / 8
    else trailing_zeros 64 (u64_of (drop 8 digit_mask)) / 8 + 8

-- The sums of eight digits, as the one lane that is left.
unfoldable pub sum_8 : Bytes → Bytes
unfolding simd_add alternating
sum_8 digits =
    let x = simd_add (simd_mul 8 digits (alternating 4 10 1)) in
    let y = simd_add (simd_mul 16 x (alternating 2 100 1)) in
    simd_add (simd_mul 32 y (alternating 1 10_000 1))

abbrev pub lane_of : Bytes → JsonResult ℕ
lane_of [] = panic
lane_of (t ∷ ts) = ok t

unfoldable pub first_half_calc : Bytes → ℕ → JsonResult ℕ
unfolding sum_8
first_half_calc byte_vec last_digit =
    let digits = simd_sub (take 8 byte_vec) (replicate 8 b'0') in
    if last_digit == 0
    then ok 0
    else if last_digit == 1
    then lane_of digits
    else if within 2 7 last_digit
    then lane_of (sum_8 (combine_vecs last_digit (replicate 8 0) digits))
    else if last_digit == 8
    then lane_of (sum_8 digits)
    else panic

-- The two lanes of sixteen digits.
unfoldable pub sum_16 : Bytes → Bytes
unfolding simd_add alternating
sum_16 digits =
    let x = simd_add (simd_mul 8 digits (alternating 8 10 1)) in
    let y = simd_add (simd_mul 16 x (alternating 4 100 1)) in
    simd_add (simd_mul 32 y (alternating 2 10_000 1))

abbrev pub join_lanes : Bytes → JsonResult ℕ
join_lanes [] = panic
join_lanes (t ∷ []) = panic
join_lanes (t ∷ u ∷ ts) = ok ((t * 100_000_000 % u64_mod + u) % u64_mod)

unfoldable pub full_calc : Bytes → ℕ → JsonResult ℕ
unfolding sum_16
full_calc byte_vec last_digit =
    let digits = simd_sub byte_vec (replicate 16 b'0') in
    if within 9 15 last_digit
    then join_lanes (sum_16 (combine_vecs last_digit (replicate 16 0) digits))
    else if last_digit == 16
    then join_lanes (sum_16 digits)
    else panic

-- The byte is read unchecked, within the vector.
abbrev pub next_is_float : Bytes → ℕ → JsonResult Bool
next_is_float bytes index = elim (get_elem? bytes index) [
  | some c ↦ ok (is_float_byte c)
  | none ↦ panic
]

abbrev pub chunk_at : (ℕ → IntChunk) → ℕ → JsonResult ℕ → JsonResult (IntChunk × ℕ)
chunk_at make index r = r >>= λ value. ok (make value, index)

-- The part behind a vector with a lane that is no digit.
unfoldable pub ended_at : Bytes → Bytes → ℕ → ℕ → JsonResult (IntChunk × ℕ)
unfolding first_half_calc full_calc
ended_at bytes byte_vec last_digit index = next_is_float bytes index >>= λ is_float.
    if is_float
    then ok (float, index)
    else if leb last_digit 8
    then chunk_at done index (first_half_calc byte_vec last_digit)
    else chunk_at done index (full_calc byte_vec last_digit)

unfoldable pub decode_int_chunk : Bytes → ℕ → JsonResult (IntChunk × ℕ)
unfolding is_zero get_digit_mask find_end ended_at full_calc decode_int_chunk_fallback
decode_int_chunk bytes index = elim (get_range bytes index (index + simd_step)) [
  | some byte_vec ↦
      let mask = get_digit_mask byte_vec in
      if is_zero mask
      then chunk_at ongoing (index + simd_step) (full_calc byte_vec 16)
      else ended_at bytes byte_vec (find_end mask) (index + find_end mask)
  | none ↦ ok (decode_int_chunk_fallback bytes index 0)
]
