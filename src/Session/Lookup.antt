-- ===== src/Session/Lookup.antt =====
-- tensorrt/src/session.rs: the index of I/O tensors by name. The functions take the two fields that
-- they read, so that they serve a session whatever else it holds.
use tensorrt_rs.Prelude.{
  ℕ, suc, String, List, [], ◌∷◌, Result, ok, ok_or, ◌>>=◌, get_elem?, string_eq,
}
use tensorrt_rs.Prelude.Maps.{lookup, insert}
use tensorrt_rs.DataType.{DataType}
use tensorrt_rs.Errors.{Error, invalid_shape, not_engine_tensor, input, panicked}
use tensorrt_rs.Session.State.{IoTensors}
use tensorrt_rs.Tensor.{TensorInfo, TensorShape, Dims, tensor_byte_len, with_io_mode}

-- `iter().enumerate().map(..).collect()` into a `HashMap`: a later tensor of the same name wins.
unfoldable pub index_from : ℕ → List TensorInfo → List (String × ℕ) → List (String × ℕ)
unfolding insert
index_from i [] m = m
index_from i (t ∷ ts) m = index_from (suc i) ts (insert t.name i m)

unfoldable pub index_tensors : List TensorInfo → IoTensors
unfolding index_from
index_tensors ts = record { io_tensors = ts; io_tensor_index = index_from 0 ts [] }

unfoldable pub tensor_index : IoTensors → String → Result Error ℕ
unfolding lookup
tensor_index io tensor =
    ok_or (lookup tensor io.io_tensor_index) (invalid_shape tensor not_engine_tensor)

-- `&self.io_tensors[index]` panics out of bounds.
unfoldable pub tensor_info : IoTensors → String → Result Error TensorInfo
unfolding tensor_index
tensor_info io tensor = tensor_index io tensor >>= λ i. ok_or (get_elem? io.io_tensors i) panicked

unfoldable pub tensor_data_type : IoTensors → String → Result Error DataType
unfolding tensor_info
tensor_data_type io tensor = tensor_info io tensor >>= λ info. ok info.data_type

unfoldable pub input_info_from_shape : IoTensors → TensorShape → Result Error TensorInfo
unfolding tensor_info with_io_mode
input_info_from_shape io shape = tensor_info io shape.name >>= λ info.
    ok (with_io_mode shape.name info.data_type shape.shape input)

-- `Session::tensor_byte_len`
unfoldable pub session_byte_len : IoTensors → String → Dims → Result Error ℕ
unfolding tensor_data_type tensor_byte_len
session_byte_len io name shape = tensor_data_type io name >>= λ t. tensor_byte_len name shape t
