-- ===== src/Session/Validate.antt =====
-- tensorrt/src/session.rs: the checks of shapes, modes, types and sizes.
use tensorrt_rs.Prelude.{
  ℕ, suc, String, ◌&&◌, List, [], ◌∷◌, ℤ, Result, ok, err, ◌>>=◌, ◌>>◌, reject, for_each, not, ◌==◌,
  nat_eq, int_eq, is_negative, if◌then◌else◌,
}
use tensorrt_rs.DataType.{DataType, data_type_eq}
use tensorrt_rs.Errors.{
  Error, TensorIoMode, input, invalid_shape, rank_mismatch, static_axis, not_concrete,
  tensor_mode_mismatch, type_mismatch, size_mismatch,
}
use tensorrt_rs.Tensor.{Dims, rank, is_dynamic, io_mode_eq, tensor_byte_len, DeviceInputTensor}
use tensorrt_rs.Session.State.{IoTensors}
use tensorrt_rs.Session.Lookup.{tensor_info, tensor_data_type}

-- The loop over the axes of two shapes of the same rank.
unfoldable pub check_axes : String → ℕ → List ℤ → List ℤ → Result Error (Unit {0})
check_axes tensor axis [] dims = ok tt
check_axes tensor axis (e ∷ es) [] = ok tt
check_axes tensor axis (e ∷ es) (d ∷ ds) =
    reject (not (is_negative e) && not (e == d)) (invalid_shape tensor (static_axis axis e d))
    >> check_axes tensor (suc axis) es ds

unfoldable pub validate_tensor_shape : IoTensors → String → Dims → Result Error (Unit {0})
unfolding tensor_info rank is_dynamic check_axes
validate_tensor_shape io tensor shape = do
  info ← tensor_info io tensor
  reject (not (rank info.shape == rank shape))
      (invalid_shape tensor (rank_mismatch (rank info.shape) (rank shape)))
  check_axes tensor 0 info.shape.values shape.values
  reject (is_dynamic shape) (invalid_shape tensor (not_concrete shape.values))

unfoldable pub ensure_tensor_mode : IoTensors → String → TensorIoMode → Result Error (Unit {0})
unfolding tensor_info
ensure_tensor_mode io tensor expected = tensor_info io tensor >>= λ info.
    if info.io_mode == expected
    then ok tt
    else err (tensor_mode_mismatch tensor expected info.io_mode)

unfoldable pub ensure_tensor_type : IoTensors → String → DataType → Result Error (Unit {0})
unfolding tensor_data_type
ensure_tensor_type io tensor expected = tensor_data_type io tensor >>= λ actual.
    if actual == expected then ok tt else err (type_mismatch tensor expected actual)

unfoldable pub validate_device_bytes :
    IoTensors → String → Dims → DataType → ℕ → Result Error (Unit {0})
unfolding tensor_data_type tensor_byte_len
validate_device_bytes io tensor shape data_type actual_bytes = do
  engine_data_type ← tensor_data_type io tensor
  reject (not (engine_data_type == data_type)) (type_mismatch tensor engine_data_type data_type)
  expected_bytes ← tensor_byte_len tensor shape data_type
  reject (not (actual_bytes == expected_bytes)) (size_mismatch tensor expected_bytes actual_bytes)

-- The body of the loop over the device inputs.
unfoldable pub validate_device_input : IoTensors → DeviceInputTensor → Result Error (Unit {0})
unfolding validate_tensor_shape ensure_tensor_mode ensure_tensor_type validate_device_bytes
validate_device_input io t = do
  validate_tensor_shape io t.name t.shape
  ensure_tensor_mode io t.name input
  ensure_tensor_type io t.name t.data_type
  validate_device_bytes io t.name t.shape t.data_type t.bytes

unfoldable pub validate_device_inputs : IoTensors → List DeviceInputTensor → Result Error (Unit {0})
unfolding validate_device_input for_each
validate_device_inputs io inputs = for_each (validate_device_input io) inputs
