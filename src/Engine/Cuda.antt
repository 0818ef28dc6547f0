-- ===== src/Engine/Cuda.antt =====
-- tensorrt/src/cuda.rs: streams, events, device buffers and graph capture, and the two calls of
-- tensorrt/src/engine.rs that use the device.
use tensorrt_rs.Prelude.{
  ℕ, Bool, true, false, Option, none, some, ℤ, pos, Result, ok, err, ◌==◌, int_eq, nat_eq, Eq,
  ℕ_discrete, ltb, if◌then◌else◌,
}
use tensorrt_rs.Prelude.Exec.{Exec}
use tensorrt_rs.Errors.{
  Error, cuda, invalid_shape, size_mismatch, zero_bytes, event_needs_cuda, device_id_range,
  from_status,
}
use tensorrt_rs.Tensor.{Slice}
use tensorrt_rs.Engine.Native.{Driver}
use tensorrt_rs.Engine.Context.{ExecutionContext}

-- `candle_core::DeviceLocation`
pub data DeviceLocation : Type 0 where
  cpu : DeviceLocation
  cuda_device metal_device : (gpu_id : ℕ) → DeviceLocation

unfoldable pub DeviceLocation-discrete : Discrete DeviceLocation
unfolding ℕ_discrete
DeviceLocation-discrete = hlevel ℕ_discrete

instance abbrev pub device_location_eq : Eq DeviceLocation
device_location_eq = record { dec = DeviceLocation-discrete }

-- A stream: its `cudaStream_t` and the device that it is known to belong to.
pub record CudaStream : Type 0 where
  pub raw : ℕ
  pub device_location : Option DeviceLocation

pub record DeviceBuffer : Type 0 where
  pub ptr : ℕ
  pub bytes : ℕ

unfoldable pub cuda_error : ℤ → Error
cuda_error code = cuda (record { code = code })

unfoldable pub check_cuda : ℤ → Result Error (Unit {0})
unfolding cuda_error
check_cuda code = if code == pos 0 then ok tt else err (cuda_error code)

-- A value that a CUDA call returns beside its code: null is an error of code 0.
unfoldable pub checked_pointer : ℤ → ℕ → Result Error ℕ
unfolding cuda_error
checked_pointer code ptr =
    if code == pos 0
    then (if ptr == 0 then err (cuda_error (pos 0)) else ok ptr)
    else err (cuda_error code)

abbrev pub cuda_not_ready : ℤ
cuda_not_ready = pos 600

unfoldable pub query_code : ℤ → Result Error Bool
unfolding cuda_error
query_code code =
    if code == pos 0
    then ok true
    else if code == cuda_not_ready
    then ok false
    else err (cuda_error code)

module _ {Raw Gpu : Type 0} (d : Driver Raw Gpu) where
  unfoldable pub create_execution_context : Exec Gpu Error (ExecutionContext Raw)
  unfolding from_status
  create_execution_context g =
      let (status, raw, g') = d.create_context g in
      elim (from_status status) [
        | err e ↦ (err e, g')
        | ok _ ↦ elim raw [
          | none ↦ (err Error.null_pointer, g')
          | some r ↦ (ok (record { raw = r; input_shapes = none }), g')
        ]
      ]

  -- `enqueue_v3` on a context; the context and the device both change.
  unfoldable pub enqueue_v3 : CudaStream → Exec (ExecutionContext Raw × Gpu) Error (Unit {0})
  unfolding from_status
  enqueue_v3 stream (c, g) =
      let (status, raw, g') = d.enqueue_v3 c.raw stream.raw g in
      (from_status status, (record c { raw = raw }, g'))

  unfoldable pub synchronize_stream : CudaStream → Exec Gpu Error (Unit {0})
  unfolding check_cuda
  synchronize_stream stream g =
      let (code, g') = d.stream_synchronize stream.raw g in (check_cuda code, g')

  unfoldable pub record_event : ℕ → CudaStream → Exec Gpu Error (Unit {0})
  unfolding check_cuda
  record_event event stream g =
      let (code, g') = d.event_record event stream.raw g in (check_cuda code, g')

  unfoldable pub query_event : ℕ → Exec Gpu Error Bool
  unfolding query_code
  query_event event g = let (code, g') = d.event_query event g in (query_code code, g')

  -- `CudaEventHandle::new`
  unfoldable pub new_event : Exec Gpu Error ℕ
  unfolding checked_pointer
  new_event g = let (code, event, g') = d.event_create g in (checked_pointer code event, g')

  -- The event is made on the device `gpu_id`, and the device that was current is made current again.
  unfoldable pub new_event_on : ℕ → Exec Gpu Error ℕ
  unfolding check_cuda new_event
  new_event_on gpu_id g =
      let (code, previous, g₁) = d.get_device g in
      elim (check_cuda code) [
        | err e ↦ (err e, g₁)
        | ok _ ↦
            let (code', g₂) = d.set_device (pos gpu_id) g₁ in
            elim (check_cuda code') [
              | err e ↦ (err e, g₂)
              | ok _ ↦
                  let (event, g₃) = new_event g₂ in
                  let (code'', g₄) = d.set_device previous g₃ in
                  elim event [
                    | err e ↦ (err e, g₄)
                    | ok ev ↦ elim (check_cuda code'') [ err e ↦ (err e, g₄) | ok _ ↦ (ok ev, g₄) ]
                  ]
            ]
      ]

  unfoldable pub new_for_device_location : DeviceLocation → Exec Gpu Error ℕ
  unfolding new_event_on
  new_for_device_location (cuda_device gpu_id) g =
      if ltb gpu_id 2147483648
      then new_event_on gpu_id g
      else (err (invalid_shape "<cuda-event>" (device_id_range gpu_id)), g)
  new_for_device_location cpu g = (err (invalid_shape "<cuda-event>" event_needs_cuda), g)
  new_for_device_location (metal_device gpu_id) g =
      (err (invalid_shape "<cuda-event>" event_needs_cuda), g)

  unfoldable pub new_device_buffer : ℕ → Exec Gpu Error DeviceBuffer
  unfolding checked_pointer
  new_device_buffer bytes g =
      if bytes == 0
      then (err (invalid_shape "<device-buffer>" zero_bytes), g)
      else (let (code, ptr, g') = d.malloc bytes g in
          elim (checked_pointer code ptr) [
            | err e ↦ (err e, g')
            | ok p ↦ (ok (record { ptr = p; bytes = bytes }), g')
          ])

  unfoldable pub copy_from_host : DeviceBuffer → Slice → CudaStream → Exec Gpu Error (Unit {0})
  unfolding check_cuda
  copy_from_host b src stream g =
      if src.len == b.bytes
      then (let (code, g') = d.memcpy b.ptr src.ptr src.len stream.raw g in (check_cuda code, g'))
      else (err (size_mismatch "<host-to-device>" b.bytes src.len), g)

  unfoldable pub copy_to_host : DeviceBuffer → Slice → CudaStream → Exec Gpu Error (Unit {0})
  unfolding check_cuda
  copy_to_host b dst stream g =
      if dst.len == b.bytes
      then (let (code, g') = d.memcpy dst.ptr b.ptr dst.len stream.raw g in (check_cuda code, g'))
      else (err (size_mismatch "<device-to-host>" b.bytes dst.len), g)

  -- `CudaGraphExec::capture`, with the calls that are recorded. The capture is ended also where
  -- these fail.
  unfoldable pub capture :
      {S : Type 0} → CudaStream → Exec (S × Gpu) Error (Unit {0}) → Exec (S × Gpu) Error ℕ
  unfolding check_cuda checked_pointer
  capture stream enqueue (s, g) =
      let (code, g₁) = d.begin_capture stream.raw g in
      elim (check_cuda code) [
        | err e ↦ (err e, (s, g₁))
        | ok _ ↦
            let (result, (s', g₂)) = enqueue (s, g₁) in
            let (end, graph, g₃) = d.end_capture stream.raw g₂ in
            elim result [
              | err e ↦ (err e, (s', g₃))
              | ok _ ↦ elim (checked_pointer end graph) [
                | err e ↦ (err e, (s', g₃))
                | ok gr ↦
                    let (code', exec, g₄) = d.graph_instantiate gr g₃ in
                    (checked_pointer code' exec, (s', g₄))
              ]
            ]
      ]

  unfoldable pub launch : ℕ → CudaStream → Exec Gpu Error (Unit {0})
  unfolding check_cuda
  launch exec stream g = let (code, g') = d.graph_launch exec stream.raw g in (check_cuda code, g')
