-- ===== src/Prepared/State.antt =====
-- tensorrt/src/prepared.rs: the state of the prepared sessions, and what they are made from.
use tensorrt_rs.Prelude.{
  ℕ, String, List, Option, Result, ok, ◌>>=◌, ◌>>◌, reject, not, ◌==◌, nat_eq, length, try_map,
}
use tensorrt_rs.Errors.{Error, invalid_shape, kind_count}
use tensorrt_rs.Tensor.{TensorInfo, TensorShape}
use tensorrt_rs.Engine.{Driver, ExecutionContext, DeviceBuffer}
use tensorrt_rs.Session.{IoTensors, input_info_from_shape, inferred_output_infos}
use tensorrt_rs.Session.Select.{select_outputs}
use tensorrt_rs.Prepared.Defs.{PreparedInputKind, prepared_tensor_bytes}

pub record PreparedDeviceSession (Raw : Type 0) : Type 0 where
  pub context : ExecutionContext Raw
  pub input_infos : List TensorInfo
  pub output_infos : List TensorInfo
  pub input_bytes : List ℕ
  pub output_bytes : List ℕ

pub record PreparedMixedDeviceSession (Raw : Type 0) : Type 0 where
  pub context : ExecutionContext Raw
  pub input_infos : List TensorInfo
  pub output_infos : List TensorInfo
  pub input_bytes : List ℕ
  pub output_bytes : List ℕ
  pub input_kinds : List PreparedInputKind
  pub staged_inputs : List (Option DeviceBuffer)

unfoldable pub new_prepared :
    {Raw : Type 0}
    → ExecutionContext Raw
    → List TensorInfo
    → List TensorInfo
    → Result Error (PreparedDeviceSession Raw)
unfolding prepared_tensor_bytes
new_prepared c inputs outputs = do
  input_bytes ← prepared_tensor_bytes inputs
  output_bytes ← prepared_tensor_bytes outputs
  ok (record {
    context = c;
    input_infos = inputs;
    output_infos = outputs;
    input_bytes = input_bytes;
    output_bytes = output_bytes;
  })

-- The checks and sizes of `PreparedMixedDeviceSession::new`.
unfoldable pub mixed_sizes :
    List TensorInfo → List TensorInfo → List PreparedInputKind → Result Error (List ℕ × List ℕ)
unfolding prepared_tensor_bytes
mixed_sizes inputs outputs kinds = do
  reject (not (length inputs == length kinds))
      (invalid_shape "<prepared-mixed-inputs>" (kind_count (length inputs) (length kinds)))
  input_bytes ← prepared_tensor_bytes inputs
  output_bytes ← prepared_tensor_bytes outputs
  ok (input_bytes, output_bytes)

module _ {Raw Gpu : Type 0} (d : Driver Raw Gpu) where
  -- The tensors that are prepared, on a context whose input shapes are set.
  unfoldable pub prepared_infos :
      IoTensors
      → ExecutionContext Raw
      → List TensorShape
      → List String
      → Result Error (List TensorInfo × List TensorInfo)
  unfolding input_info_from_shape try_map inferred_output_infos select_outputs
  prepared_infos io c inputs names = do
    input_infos ← try_map (input_info_from_shape io) inputs
    output_infos ← inferred_output_infos d io c
    selected ← select_outputs output_infos names
    ok (input_infos, selected)

  unfoldable pub prepare_on_context :
      IoTensors
      → ExecutionContext Raw
      → List TensorShape
      → List String
      → Result Error (PreparedDeviceSession Raw)
  unfolding prepared_infos new_prepared
  prepare_on_context io c inputs names = do
    infos ← prepared_infos io c inputs names
    new_prepared c infos.0 infos.1
