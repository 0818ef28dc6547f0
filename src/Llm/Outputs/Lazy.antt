-- ===== src/Llm/Outputs/Lazy.antt =====
-- output.rs: `LazyTensor`. With a guard that keeps the memory alive, a tensor is made from it when
-- it is first asked for; with none, its values are copied at once. `Tensor` and `from_vec` are
-- Candle's; `from_vec` has the CPU as its device.
use tensorrt_rs.Prelude.{
  ℕ, ◌/◌, List, [], ◌∷◌, Option, some, none, Result, ok, err, ◌>>=◌, ◌>>◌, reject, ltb, ◌==◌,
  nat_eq, not, ◌&&◌, ok_or, ℤ, pos, negsuc, try_map, if◌then◌else◌,
}
use tensorrt_rs.Prelude.Pointers.{Pointer, is_null, from_raw_parts}
use tensorrt_rs.DataType.{DataType}
use tensorrt_rs.Tensor.{checked_mul}
use tensorrt_rs.Llm.DataTypes.{data_type_size, data_type_from_executor_i32}
use tensorrt_rs.Llm.Errors.{
  Error, invalid_argument, null_data, null_result, null_shape, not_divisible, byte_size_overflow,
  dimension_negative,
}
use tensorrt_rs.Llm.Outputs.Values.{
  TensorData, int64, is_multiple_of, from_bytes, elem_count, validate_tensor_len,
}
use tensorrt_rs.Llm.Outputs.Offsets.{OffsetTensorData, new_offsets, offsets_len, to_vec, expect}
use tensorrt_rs.Llm.Outputs.Sys.{OwnedTensor}

-- What `_owner` is counted by.
pub record RawOutputGuard : Type 0 where
  pub owner : ℕ

pub record RawTensorData : Type 0 where
  pub data_type : DataType
  pub ptr : Pointer (List ℕ)
  pub byte_len : ℕ

unfoldable pub new_raw_data : DataType → Pointer (List ℕ) → ℕ → Result Error RawTensorData
unfolding data_type_size
new_raw_data t raw byte_len = do
  size ← data_type_size t
  reject (ltb 0 byte_len && is_null raw) (invalid_argument null_data)
  ok (record { data_type = t; ptr = raw; byte_len = byte_len })

unfoldable pub raw_elem_count : RawTensorData → Result Error ℕ
unfolding data_type_size
raw_elem_count d = do
  size ← data_type_size d.data_type
  reject (not (is_multiple_of d.byte_len size)) (invalid_argument (not_divisible d.data_type size))
  ok (d.byte_len / size)

unfoldable pub raw_bytes : RawTensorData → List ℕ
raw_bytes d = if d.byte_len == 0 then [] else from_raw_parts d.ptr d.byte_len

unfoldable pub bytes : OwnedTensor → Result Error (List ℕ)
bytes raw =
    if raw.byte_len == 0
    then ok []
    else if is_null raw.contents
    then err (invalid_argument null_data)
    else ok (from_raw_parts raw.contents raw.byte_len)

-- `usize::try_from`, of an `i64`.
unfoldable pub usize_try_from : ℤ → Error → Result Error ℕ
usize_try_from (pos n) e = ok n
usize_try_from (negsuc n) e = err e

unfoldable pub shape_of : OwnedTensor → Result Error (List ℕ)
unfolding usize_try_from try_map
shape_of raw =
    if raw.rank == 0
    then ok []
    else if is_null raw.shape
    then err (invalid_argument null_shape)
    else try_map (λ dim. usize_try_from dim (invalid_argument (dimension_negative dim)))
        (from_raw_parts raw.shape raw.rank)

pub data LazyTensor (Tensor : Type 0) : Type 0 where
  deferred : (values : TensorData) → (shape : List ℕ) → (tensor : Option Tensor) → LazyTensor Tensor
  raw :
      (values : RawTensorData)
      → (shape : List ℕ) → (tensor : Option Tensor) → (guard : RawOutputGuard) → LazyTensor Tensor
  offsets :
      (values : OffsetTensorData)
      → (tensor : Option Tensor) → (guard : RawOutputGuard) → LazyTensor Tensor

module _ {Tensor : Type 0} where
  -- `LazyTensor::new`
  unfoldable pub new_deferred : TensorData → List ℕ → Result Error (LazyTensor Tensor)
  new_deferred values shape =
      validate_tensor_len (elem_count values) shape >> ok (deferred values shape none)

  unfoldable pub from_raw_tensor :
      RawTensorData → List ℕ → RawOutputGuard → Result Error (LazyTensor Tensor)
  unfolding raw_elem_count
  from_raw_tensor values shape guard = do
    count ← raw_elem_count values
    validate_tensor_len count shape
    ok (raw values shape none guard)

  unfoldable pub from_offsets :
      Pointer (List ℕ) → ℕ → ℕ → RawOutputGuard → Result Error (LazyTensor Tensor)
  from_offsets ptr sequence_count data_count guard =
      new_offsets ptr sequence_count data_count >>= λ values. ok (offsets values none guard)

  unfoldable pub from_owned_in :
      Option RawOutputGuard → DataType → List ℕ → OwnedTensor → Result Error (LazyTensor Tensor)
  unfolding new_raw_data from_raw_tensor bytes new_deferred
  from_owned_in (some guard) data_type shape owned =
      new_raw_data data_type owned.contents owned.byte_len >>= λ values.
      from_raw_tensor values shape guard
  from_owned_in none data_type shape owned = do
    bytes ← bytes owned
    values ← from_bytes data_type bytes
    new_deferred values shape

  unfoldable pub from_owned : OwnedTensor → Option RawOutputGuard → Result Error (LazyTensor Tensor)
  unfolding from_owned_in shape_of data_type_from_executor_i32
  from_owned owned guard = do
    data_type ← data_type_from_executor_i32 owned.data_type
    shape ← shape_of owned
    from_owned_in guard data_type shape owned

  unfoldable pub from_typed_raw_in :
      Option RawOutputGuard
      → DataType
      → Pointer (List ℕ)
      → ℕ
      → ℕ
      → List ℕ
      → Result Error (LazyTensor Tensor)
  unfolding new_raw_data from_raw_tensor new_deferred
  from_typed_raw_in (some guard) data_type ptr count byte_len shape =
      new_raw_data data_type ptr byte_len >>= λ values. from_raw_tensor values shape guard
  from_typed_raw_in none data_type ptr count byte_len shape = do
    reject (ltb 0 count && is_null ptr) (invalid_argument null_result)
    values ← from_bytes data_type (if byte_len == 0 then [] else from_raw_parts ptr byte_len)
    new_deferred values shape

  unfoldable pub from_typed_raw :
      DataType
      → Pointer (List ℕ)
      → ℕ
      → List ℕ
      → Option RawOutputGuard
      → Result Error (LazyTensor Tensor)
  unfolding from_typed_raw_in data_type_size checked_mul
  from_typed_raw data_type ptr count shape guard = do
    size ← data_type_size data_type
    byte_len ← ok_or (checked_mul count size) (invalid_argument byte_size_overflow)
    from_typed_raw_in guard data_type ptr count byte_len shape

module _ {Tensor E : Type 0} (from_vec : TensorData → List ℕ → Result E Tensor) where
  -- What is made of the values when they are first asked for: `to_tensor` of each kind.
  unfoldable pub materialize : LazyTensor Tensor → Result Error Tensor
  unfolding raw_bytes to_vec offsets_len
  materialize (deferred values shape tensor) = expect (from_vec values shape)
  materialize (raw values shape tensor guard) =
      expect (from_bytes values.data_type (raw_bytes values)) >>= λ read.
      expect (from_vec read shape)
  materialize (offsets values tensor guard) =
      to_vec values >>= λ read. expect (from_vec (int64 read) (offsets_len values ∷ []))

  -- `OnceLock`: what it holds.
  unfoldable pub cell : LazyTensor Tensor → Option Tensor
  cell (deferred values shape tensor) = tensor
  cell (raw values shape tensor guard) = tensor
  cell (offsets values tensor guard) = tensor

  unfoldable pub fill : Tensor → LazyTensor Tensor → LazyTensor Tensor
  fill t (deferred values shape tensor) = deferred values shape (some t)
  fill t (raw values shape tensor guard) = raw values shape (some t) guard
  fill t (offsets values tensor guard) = offsets values (some t) guard

  -- `get_or_init`: the tensor, and what the cell holds from then on.
  unfoldable pub tensor : LazyTensor Tensor → Result Error (Tensor × LazyTensor Tensor)
  unfolding cell fill
  tensor l = elim (cell l) [ some t ↦ ok (t, l) | none ↦ materialize l >>= λ t. ok (t, fill t l) ]

  unfoldable pub into_tensor : LazyTensor Tensor → Result Error Tensor
  unfolding cell
  into_tensor l = elim (cell l) [ some t ↦ ok t | none ↦ materialize l ]
