-- ===== src/Session/Staging.antt =====
-- tensorrt/src/session.rs: input bindings, and the device memory that holds staged inputs. A buffer
-- is freed when its owner ends (`Drop for DeviceBuffer`).
use tensorrt_rs.Prelude.{
  ℕ, String, List, [], ◌∷◌, none, some, Result, ok, err, ◌>>=◌, ◌>>◌, reject, not, ◌==◌, nat_eq,
}
use tensorrt_rs.Prelude.Exec.{Exec}
use tensorrt_rs.Errors.{
  Error, input, output, invalid_shape, size_mismatch, null_input, output_shape_mismatch,
}
use tensorrt_rs.Tensor.{
  Slice, HostInputTensor, DeviceInputTensor, InputBinding, host_bound, host_to_device, device_bound,
  device, host, with_location, Dims, dims_eq, HostOutputTensor,
}
use tensorrt_rs.Engine.{
  Driver, ExecutionContext, tensor_shape, DeviceBuffer, CudaStream, new_device_buffer,
  copy_from_host,
}
use tensorrt_rs.Session.State.{IoTensors}
use tensorrt_rs.Session.Lookup.{session_byte_len}
use tensorrt_rs.Session.Validate.{
  validate_tensor_shape, ensure_tensor_mode, ensure_tensor_type, validate_device_input,
}

pub data BoundInputBinding : Type 0 where
  staged_device : DeviceBuffer → BoundInputBinding
  device_ptr : ℕ → BoundInputBinding
  host_slice : Slice → BoundInputBinding

unfoldable pub as_mut_ptr : BoundInputBinding → ℕ
as_mut_ptr (staged_device b) = b.ptr
as_mut_ptr (device_ptr p) = p
as_mut_ptr (host_slice s) = s.ptr

-- The memory that a binding owns.
unfoldable pub owned_buffers : BoundInputBinding → List DeviceBuffer
owned_buffers (staged_device b) = b ∷ []
owned_buffers (device_ptr p) = []
owned_buffers (host_slice s) = []

-- The checks of a host input, which give its size in bytes.
unfoldable pub check_host_input : IoTensors → HostInputTensor → Result Error ℕ
unfolding validate_tensor_shape ensure_tensor_mode ensure_tensor_type session_byte_len
check_host_input io t = do
  validate_tensor_shape io t.name t.shape
  ensure_tensor_mode io t.name input
  elim t.expected_data_type [ none ↦ ok tt | some expected ↦ ensure_tensor_type io t.name expected ]
  expected_bytes ← session_byte_len io t.name t.shape
  reject (not (t.bytes.len == expected_bytes)) (size_mismatch t.name expected_bytes t.bytes.len)
  ok expected_bytes

unfoldable pub check_device_binding : IoTensors → DeviceInputTensor → Result Error (Unit {0})
unfolding validate_device_input
check_device_binding io t = do
  validate_device_input io t
  reject (t.ptr == 0) (invalid_shape t.name null_input)

module _ {Raw Gpu : Type 0} (d : Driver Raw Gpu) where
  -- `context.tensor_shape(name)?`, held against the shape of the output.
  unfoldable pub check_actual_shape : String → Dims → ExecutionContext Raw → Result Error (Unit {0})
  unfolding tensor_shape
  check_actual_shape name shape c = elim (tensor_shape d c name) [
    | err e ↦ err e
    | ok actual ↦
        reject (not (actual == shape))
          (invalid_shape name (output_shape_mismatch shape.values actual.values))
  ]

  -- The checks of a host output against the context, which give its size in bytes.
  unfoldable pub check_host_output :
      IoTensors → ExecutionContext Raw → HostOutputTensor → Result Error ℕ
  unfolding validate_tensor_shape ensure_tensor_mode check_actual_shape session_byte_len
  check_host_output io c t = do
    validate_tensor_shape io t.name t.shape
    ensure_tensor_mode io t.name output
    check_actual_shape t.name t.shape c
    expected_bytes ← session_byte_len io t.name t.shape
    reject (not (t.bytes.len == expected_bytes)) (size_mismatch t.name expected_bytes t.bytes.len)
    ok expected_bytes

  unfoldable pub free_buffers : List DeviceBuffer → Gpu → Gpu
  free_buffers [] g = g
  free_buffers (b ∷ bs) g = free_buffers bs (d.free b.ptr g)

  unfoldable pub stage_device : ℕ → Slice → CudaStream → Exec Gpu Error BoundInputBinding
  unfolding new_device_buffer copy_from_host
  stage_device bytes src stream g =
      let (r, g₁) = new_device_buffer d bytes g in
      elim r [
        | err e ↦ (err e, g₁)
        | ok b ↦
            let (r', g₂) = copy_from_host d b src stream g₁ in
            elim r' [ err e ↦ (err e, d.free b.ptr g₂) | ok _ ↦ (ok (staged_device b), g₂) ]
      ]

  unfoldable pub stage_input_tensor :
      IoTensors → CudaStream → HostInputTensor → Exec Gpu Error BoundInputBinding
  unfolding check_host_input stage_device
  stage_input_tensor io stream t g = elim (check_host_input io t) [
    | err e ↦ (err e, g)
    | ok bytes ↦ elim t.location [
      | device ↦ stage_device bytes t.bytes stream g
      | host ↦ (ok (host_slice t.bytes), g)
    ]
  ]

  unfoldable pub stage_mixed_input :
      IoTensors → CudaStream → InputBinding → Exec Gpu Error BoundInputBinding
  unfolding stage_input_tensor check_device_binding with_location
  stage_mixed_input io stream (host_bound t) g =
      stage_input_tensor io stream (with_location t host) g
  stage_mixed_input io stream (host_to_device t) g =
      stage_input_tensor io stream (with_location t device) g
  stage_mixed_input io stream (device_bound t) g = elim (check_device_binding io t) [
    | err e ↦ (err e, g)
    | ok _ ↦ (ok (device_ptr t.ptr), g)
  ]

module _ {Raw Gpu A B : Type 0} (d : Driver Raw Gpu) (owned : B → List DeviceBuffer) where
  -- `iter().map(f).collect::<Result<Vec<_>>>()` of values that own memory: at the first error what
  -- was collected is freed.
  unfoldable pub collect_owned : (A → Exec Gpu Error B) → List A → Exec Gpu Error (List B)
  unfolding free_buffers
  collect_owned f [] g = (ok [], g)
  collect_owned f (x ∷ xs) g =
      let (r, g₁) = f x g in
      elim r [
        | err e ↦ (err e, g₁)
        | ok b ↦
            let (r', g₂) = collect_owned f xs g₁ in
            elim r' [ err e ↦ (err e, free_buffers d (owned b) g₂) | ok bs ↦ (ok (b ∷ bs), g₂) ]
      ]

module _ {Raw Gpu : Type 0} (d : Driver Raw Gpu) where
  unfoldable pub stage_input_bindings :
      IoTensors → CudaStream → List HostInputTensor → Exec Gpu Error (List BoundInputBinding)
  unfolding collect_owned stage_input_tensor owned_buffers
  stage_input_bindings io stream inputs =
      collect_owned d owned_buffers (stage_input_tensor d io stream) inputs

  unfoldable pub stage_mixed_input_bindings :
      IoTensors → CudaStream → List InputBinding → Exec Gpu Error (List BoundInputBinding)
  unfolding collect_owned stage_mixed_input owned_buffers
  stage_mixed_input_bindings io stream inputs =
      collect_owned d owned_buffers (stage_mixed_input d io stream) inputs
