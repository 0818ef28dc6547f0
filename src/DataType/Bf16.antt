-- ===== src/DataType/Bf16.antt =====
-- The BF16 conversions on bit patterns.
use tensorrt_rs.Prelude.{ℕ, ◌≡◌, ◌<◌, ◌≤◌, ◌+◌, ◌%◌, arith}
use tensorrt_rs.DataType.Defs.{f32_to_bf16_bits, bf16_bits_to_f32}

-- A BF16 pattern of 16 bits comes back unchanged from an `f32`.
pub widen_narrow : (v : ℕ) → v < 65536 → f32_to_bf16_bits (bf16_bits_to_f32 v) ≡ v
unfolding f32_to_bf16_bits bf16_bits_to_f32
widen_narrow v h = omega arith

-- Where the bits of an `f32` are below 0xffff8000, from which on the addition wraps around, rounding
-- moves them by at most half the distance of two BF16 values, up or down.
pub narrow_nearest :
    (x : ℕ)
    → x < 4294934528
    → (bf16_bits_to_f32 (f32_to_bf16_bits x) ≤ x + 32768)
      × (x ≤ bf16_bits_to_f32 (f32_to_bf16_bits x) + 32768)
unfolding f32_to_bf16_bits bf16_bits_to_f32
narrow_nearest x h = omega arith

-- The bits half-way between a BF16 pattern below 65535 and the next go to the one of these two
-- whose last bit is zero.
pub narrow_tie : (v : ℕ) → v < 65535 → f32_to_bf16_bits (bf16_bits_to_f32 v + 32768) ≡ v + v % 2
unfolding f32_to_bf16_bits bf16_bits_to_f32
narrow_tie v h = omega arith

-- The NaNs from 0x7fff8000 to 0x7fffffff are all rounded to the bits 0x8000, which are those of the
-- number -0, and with the sign bit set, where the addition wraps around, to 0, which is +0.
pub narrow_nan_zero :
    (x : ℕ)
    → 0x7fff8000 ≤ x
    → x < 0x80000000
    → (f32_to_bf16_bits x ≡ 0x8000) × (f32_to_bf16_bits (x + 0x80000000) ≡ 0)
unfolding f32_to_bf16_bits
narrow_nan_zero x h k = (omega arith, omega arith)
