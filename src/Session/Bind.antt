-- ===== src/Session/Bind.antt =====
-- tensorrt/src/session.rs: binding checked tensors to a context, and enqueueing there.
use tensorrt_rs.Prelude.{List, ok, err, ◌==◌, nat_eq}
use tensorrt_rs.Prelude.Exec.{Exec, ◌>>◌, lift, reject, for_each}
use tensorrt_rs.Errors.{Error, output, invalid_shape, null_output}
use tensorrt_rs.Tensor.{dims_eq, DeviceInputTensor, DeviceOutputTensor}
use tensorrt_rs.Engine.{Driver, ExecutionContext, CudaStream, set_tensor_address, enqueue_v3}
use tensorrt_rs.Session.State.{IoTensors}
use tensorrt_rs.Session.Validate.{
  validate_tensor_shape, ensure_tensor_mode, ensure_tensor_type, validate_device_bytes,
}
use tensorrt_rs.Session.Staging.{check_device_binding, check_actual_shape}

module _ {Raw Gpu : Type 0} (d : Driver Raw Gpu) where
  unfoldable pub bind_checked_input :
      IoTensors → DeviceInputTensor → Exec (ExecutionContext Raw) Error (Unit {0})
  unfolding check_device_binding set_tensor_address
  bind_checked_input io t = do lift (check_device_binding io t); set_tensor_address d t.name t.ptr

  -- The body of the loop over the outputs, in `run_to_device`, `run_mixed_to_device` and
  -- `enqueue_device_on_context`.
  unfoldable pub bind_checked_output :
      IoTensors → DeviceOutputTensor → Exec (ExecutionContext Raw) Error (Unit {0})
  unfolding validate_tensor_shape ensure_tensor_mode ensure_tensor_type check_actual_shape
      validate_device_bytes set_tensor_address
  bind_checked_output io t = do
    lift (validate_tensor_shape io t.name t.shape)
    lift (ensure_tensor_mode io t.name output)
    lift (ensure_tensor_type io t.name t.data_type)
    λ c. (check_actual_shape d t.name t.shape c, c)
    lift (validate_device_bytes io t.name t.shape t.data_type t.bytes)
    reject (t.ptr == 0) (invalid_shape t.name null_output)
    set_tensor_address d t.name t.ptr

  unfoldable pub enqueue_device_on_context :
      IoTensors
      → List DeviceInputTensor
      → List DeviceOutputTensor
      → CudaStream
      → Exec (ExecutionContext Raw × Gpu) Error (Unit {0})
  unfolding for_each bind_checked_input bind_checked_output enqueue_v3
  enqueue_device_on_context io inputs outputs stream (c, g) =
      let (r, c') =
        (for_each (bind_checked_input io) inputs >> for_each (bind_checked_output io) outputs) c in
      elim r [ err e ↦ (err e, (c', g)) | ok _ ↦ enqueue_v3 d stream (c', g) ]
