-- ===== src/Tensor/Size.antt =====
-- tensorrt/src/tensor.rs: element counts and byte sizes, in `usize` arithmetic on 64 bits.
use tensorrt_rs.Prelude.{
  ℕ, zero, suc, ◌+◌, ◌*◌, ◌/◌, ◌%◌, String, List, [], ◌∷◌, Option, none, some, ℤ, Result, ok, err,
  ok_or, ◌>>=◌, ◌>>◌, reject, ltb, is_negative, magnitude, if◌then◌else◌, try_map, take, drop,
  length, ◌==◌, nat_eq, not,
}
use tensorrt_rs.DataType.{DataType, bytes_per_element, data_type_eq}
use tensorrt_rs.Errors.{
  Error, invalid_shape, size_mismatch, type_mismatch, dynamic_dimension, element_count_overflow,
  Reason, byte_size_overflow,
}
use tensorrt_rs.Tensor.Defs.{Dims}

abbrev pub usize_mod : ℕ
usize_mod = 18446744073709551616

unfoldable pub checked_mul : ℕ → ℕ → Option ℕ
checked_mul a b = if ltb (a * b) usize_mod then some (a * b) else none

unfoldable pub checked_add : ℕ → ℕ → Option ℕ
checked_add a b = if ltb (a + b) usize_mod then some (a + b) else none

-- The closure of the fold over the dimensions.
unfoldable pub count_step : String → Dims → ℕ → ℤ → Result Error ℕ
unfolding checked_mul
count_step tensor shape acc dim = do
  reject (is_negative dim) (invalid_shape tensor (dynamic_dimension shape.values))
  ok_or (checked_mul acc (magnitude dim)) (invalid_shape tensor element_count_overflow)

unfoldable pub count_from : String → Dims → ℕ → List ℤ → Result Error ℕ
count_from tensor shape acc [] = ok acc
count_from tensor shape acc (dim ∷ dims) =
    count_step tensor shape acc dim >>= λ acc'. count_from tensor shape acc' dims

unfoldable pub element_count : String → Dims → Result Error ℕ
element_count tensor shape = count_from tensor shape 1 shape.values

unfoldable pub tensor_byte_len : String → Dims → DataType → Result Error ℕ
unfolding checked_mul
tensor_byte_len tensor shape data_type = do
  elements ← element_count tensor shape
  size ←
      ok_or (bytes_per_element data_type)
        (invalid_shape tensor (Reason.unsupported_data_type data_type))
  ok_or (checked_mul elements size) (invalid_shape tensor byte_size_overflow)

-- `usize::try_from` cannot fail on an `i64` that is not negative.
unfoldable pub dims_as_usize : String → Dims → Result Error (List ℕ)
unfolding try_map
dims_as_usize tensor shape =
    try_map
      (λ dim.
        reject (is_negative dim) (invalid_shape tensor (dynamic_dimension shape.values))
        >> ok (magnitude dim))
      shape.values

pub record HostTensor : Type 0 where
  pub name : String
  pub shape : Dims
  pub data_type : DataType
  pub bytes : List ℕ

-- The first `count` values of `size` bytes each.
unfoldable pub chunks : ℕ → ℕ → List ℕ → List (List ℕ)
chunks zero size bytes = []
chunks (suc count) size bytes = take size bytes ∷ chunks count size (drop size bytes)

-- The values of a type of `size` bytes, each as its bytes.
unfoldable pub bytes_into_vec : ℕ → List ℕ → Result Error (List (List ℕ))
unfolding chunks
bytes_into_vec size bytes =
    if length bytes % size == 0
    then ok (chunks (length bytes / size) size bytes)
    else err (size_mismatch "<typed-output>" (length bytes / size * size) (length bytes))

unfoldable pub into_vec : HostTensor → ℕ → DataType → Result Error (List (List ℕ))
unfolding bytes_into_vec
into_vec t size expected = do
  reject (not (t.data_type == expected)) (type_mismatch t.name expected t.data_type)
  bytes_into_vec size t.bytes
