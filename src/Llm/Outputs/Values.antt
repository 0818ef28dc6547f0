-- ===== src/Llm/Outputs/Values.antt =====
-- output.rs: `TensorData`, on a machine whose words are little-endian. A float is its bit pattern.
use tensorrt_rs.Prelude.{
  ℕ, ◌+◌, ◌-◌, ◌*◌, ◌/◌, ◌%◌, ℤ, pos, negsuc, List, [], ◌∷◌, map, Result, ok, err, ◌>>=◌, ◌>>◌,
  reject, length, ltb, ◌==◌, nat_eq, not, Bool, ok_or, if◌then◌else◌,
}
use tensorrt_rs.DataType.{DataType}
use tensorrt_rs.Tensor.{chunks, checked_mul}
use tensorrt_rs.Llm.Errors.{
  Error, invalid_argument, not_divisible, dtype_not_supported, shape_overflow, count_mismatch,
}

pub data TensorData : Type 0 where
  uint8 : List ℕ → TensorData
  int32 int64 : List ℤ → TensorData
  bf16 float16 float32 : List ℕ → TensorData

abbrev pub from_ne_bytes : List ℕ → ℕ
from_ne_bytes [] = 0
from_ne_bytes (b ∷ bs) = b + 256 * from_ne_bytes bs

-- The two's complement of a word of the given number of values.
abbrev pub signed : ℕ → ℕ → ℤ
signed values n = if ltb n (values / 2) then pos n else negsuc (values - n - 1)

abbrev pub chunks_exact : ℕ → List ℕ → List (List ℕ)
chunks_exact size bytes = chunks (length bytes / size) size bytes

-- `bytes.len().is_multiple_of(size)`
abbrev pub is_multiple_of : ℕ → ℕ → Bool
is_multiple_of n size = n % size == 0

unfoldable pub read_bf16 : List ℕ → Result Error (List ℕ)
unfolding chunks
read_bf16 bytes =
    reject (not (is_multiple_of (length bytes) 2))
      (invalid_argument (not_divisible DataType.bf16 2))
    >> ok (map from_ne_bytes (chunks_exact 2 bytes))

unfoldable pub read_f16 : List ℕ → Result Error (List ℕ)
unfolding chunks
read_f16 bytes =
    reject (not (is_multiple_of (length bytes) 2))
      (invalid_argument (not_divisible DataType.half 2))
    >> ok (map from_ne_bytes (chunks_exact 2 bytes))

unfoldable pub read_f32 : List ℕ → Result Error (List ℕ)
unfolding chunks
read_f32 bytes =
    reject (not (is_multiple_of (length bytes) 4))
      (invalid_argument (not_divisible DataType.float 4))
    >> ok (map from_ne_bytes (chunks_exact 4 bytes))

unfoldable pub read_i32 : List ℕ → Result Error (List ℤ)
unfolding chunks
read_i32 bytes =
    reject (not (is_multiple_of (length bytes) 4))
      (invalid_argument (not_divisible DataType.int32 4))
    >> ok (map (λ c. signed 4294967296 (from_ne_bytes c)) (chunks_exact 4 bytes))

unfoldable pub read_i64 : List ℕ → Result Error (List ℤ)
unfolding chunks
read_i64 bytes =
    reject (not (is_multiple_of (length bytes) 8))
      (invalid_argument (not_divisible DataType.int64 8))
    >> ok (map (λ c. signed 18446744073709551616 (from_ne_bytes c)) (chunks_exact 8 bytes))

unfoldable pub from_bytes : DataType → List ℕ → Result Error TensorData
unfolding read_i32 read_i64 read_bf16 read_f16 read_f32
from_bytes DataType.uint8 bytes = ok (uint8 bytes)
from_bytes DataType.int32 bytes = read_i32 bytes >>= λ vs. ok (int32 vs)
from_bytes DataType.int64 bytes = read_i64 bytes >>= λ vs. ok (int64 vs)
from_bytes DataType.bf16 bytes = read_bf16 bytes >>= λ vs. ok (bf16 vs)
from_bytes DataType.half bytes = read_f16 bytes >>= λ vs. ok (float16 vs)
from_bytes DataType.float bytes = read_f32 bytes >>= λ vs. ok (float32 vs)
from_bytes t bytes = err (invalid_argument (dtype_not_supported t))

unfoldable pub elem_count : TensorData → ℕ
elem_count (uint8 vs) = length vs
elem_count (int32 vs) = length vs
elem_count (int64 vs) = length vs
elem_count (bf16 vs) = length vs
elem_count (float16 vs) = length vs
elem_count (float32 vs) = length vs

-- The fold over the dimensions.
unfoldable pub elements : ℕ → List ℕ → Result Error ℕ
unfolding checked_mul
elements acc [] = ok acc
elements acc (dim ∷ dims) =
    ok_or (checked_mul acc dim) (invalid_argument shape_overflow) >>= λ n. elements n dims

unfoldable pub validate_tensor_len : ℕ → List ℕ → Result Error (Unit {0})
unfolding elements
validate_tensor_len count shape = elements 1 shape >>= λ expected.
    reject (not (count == expected)) (invalid_argument (count_mismatch expected count))
