-- ===== src/Prelude/Numbers.antt =====
-- Comparisons of `i32`, and of `f32` by bit patterns, as IEEE 754 has them.
use Prim.Native.Nat.{ℕ, zero, suc, ◌/◌, ◌%◌}
use mathlib.Core.Bool.{Bool, true, false, ◌&&◌, not}
use tensorrt_rs.Prelude.Tests.{ℤ, pos, negsuc, ltb, leb, ◌==◌, nat_eq}

-- `a <= b` and `a < b`
abbrev pub int_leb : ℤ → ℤ → Bool
int_leb (pos m) (pos n) = leb m n
int_leb (pos m) (negsuc n) = false
int_leb (negsuc m) (pos n) = true
int_leb (negsuc m) (negsuc n) = leb n m

abbrev pub int_ltb : ℤ → ℤ → Bool
int_ltb a b = not (int_leb b a)

-- `value > 0`
abbrev pub is_positive : ℤ → Bool
is_positive (pos zero) = false
is_positive (pos (suc n)) = true
is_positive (negsuc n) = false

unfoldable pub is_finite : ℕ → Bool
is_finite bits = not (bits / 8388608 % 256 == 255)

unfoldable pub f32_negative : ℕ → Bool
f32_negative bits = leb 2147483648 bits

-- The pattern without its sign, in which greater numbers are greater.
abbrev pub f32_magnitude : ℕ → ℕ
f32_magnitude bits = bits % 2147483648

unfoldable pub is_nan : ℕ → Bool
is_nan bits = ltb 2139095040 (f32_magnitude bits)

abbrev pub signed_ltb : Bool → ℕ → Bool → ℕ → Bool
signed_ltb true m true n = ltb n m
signed_ltb true m false n = not (m == 0 && n == 0)
signed_ltb false m true n = false
signed_ltb false m false n = ltb m n

-- `a < b`
unfoldable pub f32_ltb : ℕ → ℕ → Bool
unfolding is_nan f32_negative
f32_ltb a b =
    not (is_nan a)
    && not (is_nan b)
    && signed_ltb (f32_negative a) (f32_magnitude a) (f32_negative b) (f32_magnitude b)

-- `a <= b`
unfoldable pub f32_leb : ℕ → ℕ → Bool
unfolding is_nan f32_negative
f32_leb a b =
    not (is_nan a)
    && not (is_nan b)
    && not (signed_ltb (f32_negative b) (f32_magnitude b) (f32_negative a) (f32_magnitude a))
