-- ===== src/Llm/Executor/Tensors.antt =====
-- executor.rs: the tensors of a request on their way to the C side. What is asked of a Candle tensor
-- is a record of Candle's functions.
use tensorrt_rs.Prelude.{
  ℕ, zero, suc, ℤ, pos, Bool, not, List, [], ◌∷◌, Option, none, some, Result, ok, err, ◌>>=◌, ◌>>◌,
  reject, try_map, length, replicate, take, ltb, leb, is_negative, magnitude, ◌==◌, nat_eq, ok_or,
  if◌then◌else◌,
}
use tensorrt_rs.Prelude.Pointers.{Pointer, null, at}
use tensorrt_rs.DataType.{DataType, bytes_per_element}
use tensorrt_rs.Tensor.{checked_mul, checked_add}
use tensorrt_rs.Llm.DataTypes.{DType, data_type_for_dtype, data_type_to_executor_i32}
use tensorrt_rs.Llm.Errors.{
  Error, invalid_argument, not_contiguous, dimension_overflow, dynamic_shape,
  element_count_overflow, byte_size_overflow, unsupported_dtype, dtype_not_supported,
  tensor_dtype_not_supported, Reason,
}
use tensorrt_rs.Llm.Executor.Sys.{host, gpu, SysTensorView, no_tensor_view}

-- `bytes` is what `to_device`, `contiguous`, `flatten_all` and `to_vec1` give of a tensor, by the type
-- of its values; `cuda_address` the address behind its CUDA storage, by that type, from its first
-- value on; `on_cuda` whether it has such a storage.
pub record Candle (Tensor : Type 0) : Type 0 where
  pub dims : Tensor → List ℕ
  pub is_contiguous : Tensor → Bool
  pub dtype : Tensor → DType
  pub on_cuda : Tensor → Bool
  pub bytes : Tensor → DataType → Result Error (List ℕ)
  pub start_offset : Tensor → ℕ
  pub elem_count : Tensor → ℕ
  pub cuda_address : Tensor → DataType → ℕ → ℕ → Result Error ℕ

abbrev pub inline_tensor_rank : ℕ
inline_tensor_rank = 8

pub data TensorShapeBuf : Type 0 where
  inline : (values : List ℤ) → (len : ℕ) → TensorShapeBuf
  heap : List ℤ → TensorShapeBuf

-- `i64::try_from`, of a dimension.
unfoldable pub dimension : ℕ → Result Error ℤ
dimension dim =
    if ltb dim 9223372036854775808 then ok (pos dim) else err (invalid_argument dimension_overflow)

-- `values[index] = value`
abbrev pub set : {A : Type 0} → List A → ℕ → A → List A
set [] i v = []
set (x ∷ xs) zero v = v ∷ xs
set (x ∷ xs) (suc i) v = x ∷ set xs i v

-- The loop over the dimensions, from the given index on.
unfoldable pub fill_shape : ℕ → List ℕ → List ℤ → Result Error (List ℤ)
unfolding dimension
fill_shape index [] values = ok values
fill_shape index (dim ∷ dims) values =
    dimension dim >>= λ d. fill_shape (suc index) dims (set values index d)

unfoldable pub new_shape : List ℕ → Result Error TensorShapeBuf
unfolding fill_shape dimension try_map
new_shape dims =
    if leb (length dims) inline_tensor_rank
    then (fill_shape 0 dims (replicate inline_tensor_rank (pos 0)) >>= λ values.
        ok (inline values (length dims)))
    else (try_map dimension dims >>= λ values. ok (heap values))

unfoldable pub shape_as_slice : TensorShapeBuf → List ℤ
shape_as_slice (inline values len) = take len values
shape_as_slice (heap values) = values

unfoldable pub shape_as_ptr : TensorShapeBuf → Pointer (List ℤ)
unfolding shape_as_slice
shape_as_ptr s = if length (shape_as_slice s) == 0 then null else at (shape_as_slice s)

unfoldable pub count_elements : ℕ → List ℤ → Result Error ℕ
unfolding checked_mul
count_elements acc [] = ok acc
count_elements acc (dim ∷ dims) =
    reject (is_negative dim) (invalid_argument dynamic_shape)
    >> (ok_or (checked_mul acc (magnitude dim)) (invalid_argument element_count_overflow) >>= λ n.
        count_elements n dims)

unfoldable pub tensor_byte_len_for_shape : List ℤ → DataType → Result Error ℕ
unfolding count_elements bytes_per_element checked_mul
tensor_byte_len_for_shape shape data_type = do
  elements ← count_elements 1 shape
  size ← ok_or (bytes_per_element data_type) (invalid_argument (unsupported_dtype data_type))
  ok_or (checked_mul elements size) (invalid_argument byte_size_overflow)

pub data TensorBufferData : Type 0 where
  cpu : List ℕ → TensorBufferData
  cuda : (ptr byte_len : ℕ) → TensorBufferData

pub record TensorBuffer : Type 0 where
  pub contents : TensorBufferData
  pub shape : TensorShapeBuf
  pub data_type : ℤ

abbrev pub tensor_memory_cpu : ℤ
tensor_memory_cpu = pos 0

abbrev pub tensor_memory_gpu : ℤ
tensor_memory_gpu = pos 1

-- The types of values that a CUDA storage is asked for.
unfoldable pub cuda_tensor_ptr_of : DataType → Result Error ℕ → Result Error ℕ
cuda_tensor_ptr_of DataType.uint8 address = address
cuda_tensor_ptr_of DataType.int32 address = address
cuda_tensor_ptr_of DataType.int64 address = address
cuda_tensor_ptr_of DataType.bf16 address = address
cuda_tensor_ptr_of DataType.half address = address
cuda_tensor_ptr_of DataType.float address = address
cuda_tensor_ptr_of t address = err (invalid_argument (dtype_not_supported t))

module _ {Tensor : Type 0} (candle : Candle Tensor) where
  unfoldable pub tensor_bytes : Tensor → DataType → Result Error (List ℕ)
  tensor_bytes tensor DataType.uint8 = candle.bytes tensor DataType.uint8
  tensor_bytes tensor DataType.int32 = candle.bytes tensor DataType.int32
  tensor_bytes tensor DataType.int64 = candle.bytes tensor DataType.int64
  tensor_bytes tensor DataType.bf16 = candle.bytes tensor DataType.bf16
  tensor_bytes tensor DataType.half = candle.bytes tensor DataType.half
  tensor_bytes tensor DataType.float = candle.bytes tensor DataType.float
  tensor_bytes tensor t = err (invalid_argument tensor_dtype_not_supported)

  unfoldable pub cuda_tensor_ptr : Tensor → DataType → Result Error ℕ
  unfolding checked_add cuda_tensor_ptr_of
  cuda_tensor_ptr tensor data_type = do
    reject (not (candle.on_cuda tensor)) (invalid_argument Reason.not_cuda_storage)
    let start = candle.start_offset tensor
    end ←
        ok_or (checked_add start (candle.elem_count tensor))
          (invalid_argument Reason.storage_offset_overflow)
    cuda_tensor_ptr_of data_type (candle.cuda_address tensor data_type start end)

  unfoldable pub new_tensor_buffer : Tensor → Result Error TensorBuffer
  unfolding data_type_for_dtype new_shape tensor_byte_len_for_shape cuda_tensor_ptr tensor_bytes
      data_type_to_executor_i32 shape_as_slice
  new_tensor_buffer tensor = do
    reject (not (candle.is_contiguous tensor)) (invalid_argument not_contiguous)
    data_type ← data_type_for_dtype (candle.dtype tensor)
    shape ← new_shape (candle.dims tensor)
    contents ←
        if candle.on_cuda tensor
        then (tensor_byte_len_for_shape (shape_as_slice shape) data_type >>= λ byte_len.
            cuda_tensor_ptr tensor data_type >>= λ ptr. ok (cuda ptr byte_len))
        else (tensor_bytes tensor data_type >>= λ bytes. ok (cpu bytes))
    id ← data_type_to_executor_i32 data_type
    ok (record { contents = contents; shape = shape; data_type = id })

  -- `option.map(TensorBuffer::new).transpose()`
  unfoldable pub optional_buffer : Option Tensor → Result Error (Option TensorBuffer)
  unfolding new_tensor_buffer
  optional_buffer none = ok none
  optional_buffer (some tensor) = new_tensor_buffer tensor >>= λ buffer. ok (some buffer)

abbrev pub view_of : TensorBufferData → SysTensorView
view_of (cpu bytes) = record no_tensor_view {
  contents = at (host bytes);
  byte_len = length bytes;
  memory_type = tensor_memory_cpu;
}
view_of (cuda ptr byte_len) = record no_tensor_view {
  contents = at (gpu ptr);
  byte_len = byte_len;
  memory_type = tensor_memory_gpu;
}

unfoldable pub buffer_as_sys : TensorBuffer → SysTensorView
unfolding shape_as_ptr shape_as_slice
buffer_as_sys b = record (view_of b.contents) {
  data_type = b.data_type;
  shape = shape_as_ptr b.shape;
  rank = length (shape_as_slice b.shape);
}

unfoldable pub optional_tensor_view : Option TensorBuffer → SysTensorView
unfolding buffer_as_sys
optional_tensor_view none = no_tensor_view
optional_tensor_view (some b) = buffer_as_sys b
