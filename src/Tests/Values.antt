-- ===== src/Tests/Values.antt =====
-- Data types, sizes and shapes: the theorems at concrete values.
use mathlib.Core.List.{flatten}
use tensorrt_rs.Prelude.{
  ◌≡◌, refl, ◌≤◌, ◌<◌, ◌+◌, ◌*◌, ◌↔◌, List, [], ◌∷◌, some, pos, ok, arith, All, length, ℕ,
  ℕ_discrete,
}
use tensorrt_rs.DataType.{
  f32_to_bf16_bits, bf16_bits_to_f32, from_binding_dtype, as_binding_dtype, bf16, float,
  bytes_per_element,
}
use tensorrt_rs.DataType.Binding.{parse_iff_print}
use tensorrt_rs.DataType.Bf16.{widen_narrow, narrow_nearest, narrow_tie, narrow_nan_zero}
use tensorrt_rs.Tensor.{
  Dims, usize_mod, count_from, count_step, element_count, tensor_byte_len, bytes_into_vec,
}
use tensorrt_rs.Tensor.Ffi.{from_ffi, to_ffi, from_ffi-to_ffi}
use tensorrt_rs.Tensor.SizeLaws.{
  product, IsConcrete, tensor_byte_len-ok, tensor_byte_len_total, bytes_into_vec-ok,
}

parse_iff_print_example :
    (from_binding_dtype "bfloat16" ≡ some bf16) ↔ (as_binding_dtype bf16 ≡ some "bfloat16")
parse_iff_print_example = parse_iff_print "bfloat16" bf16

widen_narrow_example : f32_to_bf16_bits (bf16_bits_to_f32 0x3f80) ≡ 0x3f80
widen_narrow_example = widen_narrow 0x3f80 (omega arith)

narrow_nearest_example :
    (bf16_bits_to_f32 (f32_to_bf16_bits 0x3f809000) ≤ 0x3f809000 + 32768)
    × (0x3f809000 ≤ bf16_bits_to_f32 (f32_to_bf16_bits 0x3f809000) + 32768)
narrow_nearest_example = narrow_nearest 0x3f809000 (omega arith)

narrow_tie_example : f32_to_bf16_bits (bf16_bits_to_f32 0x3f81 + 32768) ≡ 0x3f82
narrow_tie_example = narrow_tie 0x3f81 (omega arith)

narrow_nan_zero_example :
    (f32_to_bf16_bits 0x7fffffff ≡ 0x8000) × (f32_to_bf16_bits (0x7fffffff + 0x80000000) ≡ 0)
narrow_nan_zero_example = narrow_nan_zero 0x7fffffff (omega arith) (omega arith)

abbrev matrix : Dims
matrix = record { values = pos 2 ∷ pos 3 ∷ [] }

from_ffi-to_ffi_example : from_ffi (to_ffi matrix) ≡ ok matrix
from_ffi-to_ffi_example = from_ffi-to_ffi matrix (omega arith)

matrix_bytes : tensor_byte_len "x" matrix float ≡ ok 24
unfolding tensor_byte_len element_count count_from count_step bytes_per_element
matrix_bytes = refl

tensor_byte_len-ok_example :
    (size : ℕ) × (bytes_per_element float ≡ some size)
    × IsConcrete matrix.values
    × (24 ≡ product matrix.values * size)
    × (24 < usize_mod)
tensor_byte_len-ok_example = tensor_byte_len-ok "x" matrix float matrix_bytes

float_size : bytes_per_element float ≡ some 4
unfolding bytes_per_element
float_size = refl

tensor_byte_len_total_example : tensor_byte_len "x" matrix float ≡ ok (product matrix.values * 4)
tensor_byte_len_total_example =
    tensor_byte_len_total "x" matrix float float_size (omega arith, (omega arith, tt)) (omega arith)

abbrev four_bytes : List ℕ
four_bytes = 1 ∷ 2 ∷ 3 ∷ 4 ∷ []

abbrev two_pairs : List (List ℕ)
two_pairs = (1 ∷ 2 ∷ []) ∷ (3 ∷ 4 ∷ []) ∷ []

two_values : bytes_into_vec 2 four_bytes ≡ ok two_pairs
unfolding bytes_into_vec ℕ_discrete
two_values = refl

bytes_into_vec-ok_example :
    (length four_bytes ≡ length two_pairs * 2)
    × All (λ (c : List ℕ). length c ≡ 2) two_pairs
    × (flatten two_pairs ≡ four_bytes)
bytes_into_vec-ok_example = bytes_into_vec-ok 2 four_bytes two_values
