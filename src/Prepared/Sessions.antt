-- ===== src/Prepared/Sessions.antt =====
-- tensorrt/src/prepared.rs: preparing a session, and its runs.
use tensorrt_rs.Prelude.{ℕ, String, List, [], ◌∷◌, Option, none, some, ok, err, map, zip, false}
use tensorrt_rs.Prelude.Exec.{Exec, ◌>>◌}
use tensorrt_rs.Errors.{Error, invalid_shape, kind_changed}
use tensorrt_rs.Tensor.{
  TensorInfo, TensorShape, DeviceInputTensor, DeviceOutputTensor, InputBinding, host_bound,
  host_to_device, device_bound, binding_name, binding_shape_info,
}
use tensorrt_rs.Engine.{
  Driver, ExecutionContext, CudaStream, DeviceBuffer, new_device_buffer, copy_from_host, enqueue_v3,
  create_execution_context,
}
use tensorrt_rs.Session.{
  IoTensors, set_input_shapes, set_input_shapes_if_needed, EnqueuedInference, bind_addresses,
  collect_owned, synchronize_inference,
}
use tensorrt_rs.Prepared.Defs.{
  PreparedInputKind, host, host_to_device_kind, device, validate_prepared_inputs,
  validate_prepared_outputs, validate_prepared_mixed_inputs, input_kind,
}
use tensorrt_rs.Prepared.State.{
  PreparedDeviceSession, PreparedMixedDeviceSession, mixed_sizes, prepared_infos,
  prepare_on_context,
}

unfoldable pub optional_buffer : Option DeviceBuffer → List DeviceBuffer
optional_buffer none = []
optional_buffer (some b) = b ∷ []

unfoldable pub output_address : DeviceOutputTensor → String × ℕ
output_address t = (t.name, t.ptr)

unfoldable pub input_address : DeviceInputTensor → String × ℕ
input_address t = (t.name, t.ptr)

module _ {Raw Gpu : Type 0} (d : Driver Raw Gpu) where
  unfoldable pub prepare_device :
      IoTensors → List TensorShape → List String → Exec Gpu Error (PreparedDeviceSession Raw)
  unfolding create_execution_context set_input_shapes prepare_on_context
  prepare_device io inputs names g =
      let (r, g') = create_execution_context d g in
      elim r [
        | err e ↦ (err e, g')
        | ok c ↦
            let (r', c') = set_input_shapes d io inputs c in
            elim r' [ err e ↦ (err e, g') | ok _ ↦ (prepare_on_context d io c' inputs names, g') ]
      ]

  -- The staging buffer of an input, where its kind needs one.
  unfoldable pub staging_buffer : PreparedInputKind × ℕ → Exec Gpu Error (Option DeviceBuffer)
  unfolding new_device_buffer
  staging_buffer (host, bytes) g = (ok none, g)
  staging_buffer (device, bytes) g = (ok none, g)
  staging_buffer (host_to_device_kind, bytes) g =
      let (r, g') = new_device_buffer d bytes g in
      elim r [ err e ↦ (err e, g') | ok b ↦ (ok (some b), g') ]

  unfoldable pub new_prepared_mixed :
      ExecutionContext Raw
      → List TensorInfo
      → List TensorInfo
      → List PreparedInputKind
      → Exec Gpu Error (PreparedMixedDeviceSession Raw)
  unfolding mixed_sizes collect_owned staging_buffer optional_buffer
  new_prepared_mixed c inputs outputs kinds g = elim (mixed_sizes inputs outputs kinds) [
    | err e ↦ (err e, g)
    | ok (input_bytes, output_bytes) ↦
        let (r, g') = collect_owned d optional_buffer staging_buffer (zip kinds input_bytes) g in
        elim r [
          | err e ↦ (err e, g')
          | ok staged ↦ (
            ok (record {
              context = c;
              input_infos = inputs;
              output_infos = outputs;
              input_bytes = input_bytes;
              output_bytes = output_bytes;
              input_kinds = kinds;
              staged_inputs = staged;
            }),
            g',
          )
        ]
  ]

  unfoldable pub prepare_mixed_device :
      IoTensors → List InputBinding → List String → Exec Gpu Error (PreparedMixedDeviceSession Raw)
  unfolding create_execution_context set_input_shapes_if_needed binding_shape_info prepared_infos
      input_kind new_prepared_mixed
  prepare_mixed_device io inputs names g =
      let shapes = map binding_shape_info inputs in
      let (r, g') = create_execution_context d g in
      elim r [
        | err e ↦ (err e, g')
        | ok c ↦
            let (r', c') = set_input_shapes_if_needed d io shapes c in
            elim r' [
              | err e ↦ (err e, g')
              | ok _ ↦ elim (prepared_infos d io c' shapes names) [
                | err e ↦ (err e, g')
                | ok (infos, outputs) ↦
                    new_prepared_mixed c' infos outputs (map input_kind inputs) g'
              ]
            ]
      ]

  -- The addresses are bound, inputs first, and the work is enqueued.
  unfoldable pub bind_and_enqueue :
      List (String × ℕ)
      → List (String × ℕ)
      → CudaStream
      → Exec (ExecutionContext Raw × Gpu) Error (EnqueuedInference Raw)
  unfolding bind_addresses enqueue_v3
  bind_and_enqueue inputs outputs stream (c, g) =
      let (r, c') = (bind_addresses d inputs >> bind_addresses d outputs) c in
      elim r [
        | err e ↦ (err e, (c', g))
        | ok _ ↦
            let (r', (c'', g')) = enqueue_v3 d stream (c', g) in
            elim r' [
              | err e ↦ (err e, (c'', g'))
              | ok _ ↦
                  (ok (record { context = c''; stream = stream; synchronized = false }), (c'', g'))
            ]
      ]

  unfoldable pub prepared_enqueue_device :
      List DeviceInputTensor
      → List DeviceOutputTensor
      → CudaStream
      → Exec (PreparedDeviceSession Raw × Gpu) Error (EnqueuedInference Raw)
  unfolding validate_prepared_inputs validate_prepared_outputs bind_and_enqueue input_address
      output_address
  prepared_enqueue_device inputs outputs stream (p, g) =
      elim (validate_prepared_inputs p.input_infos p.input_bytes inputs) [
        | err e ↦ (err e, (p, g))
        | ok _ ↦ elim (validate_prepared_outputs p.output_infos p.output_bytes outputs) [
          | err e ↦ (err e, (p, g))
          | ok _ ↦
              let (r, (c, g')) =
                bind_and_enqueue (map input_address inputs) (map output_address outputs) stream
                  (p.context, g) in
              (r, (record p { context = c }, g'))
        ]
      ]

  unfoldable pub prepared_run_device :
      List DeviceInputTensor
      → List DeviceOutputTensor
      → CudaStream
      → Exec (PreparedDeviceSession Raw × Gpu) Error (Unit {0})
  unfolding prepared_enqueue_device synchronize_inference
  prepared_run_device inputs outputs stream s =
      let (r, (p, g)) = prepared_enqueue_device inputs outputs stream s in
      elim r [
        | err e ↦ (err e, (p, g))
        | ok i ↦ let (r', g') = synchronize_inference d i g in (r', (p, g'))
      ]

  -- The address that an input is bound at. A staged input is copied to its buffer first.
  unfoldable pub prepared_pointer :
      CudaStream → InputBinding → PreparedInputKind → Option DeviceBuffer → Exec Gpu Error ℕ
  unfolding copy_from_host
  prepared_pointer stream (host_bound t) host staged g = (ok t.bytes.ptr, g)
  prepared_pointer stream (host_to_device t) host_to_device_kind (some b) g =
      let (r, g') = copy_from_host d b t.bytes stream g in
      elim r [ err e ↦ (err e, g') | ok _ ↦ (ok b.ptr, g') ]
  prepared_pointer stream (device_bound t) device staged g = (ok t.ptr, g)
  prepared_pointer stream t _ _ g = (err (invalid_shape (binding_name t) kind_changed), g)

  unfoldable pub prepare_mixed_input_pointers :
      CudaStream
      → List InputBinding
      → List PreparedInputKind
      → List (Option DeviceBuffer)
      → Exec Gpu Error (List ℕ)
  unfolding prepared_pointer
  prepare_mixed_input_pointers stream (t ∷ ts) (k ∷ ks) (b ∷ bs) g =
      let (r, g₁) = prepared_pointer stream t k b g in
      elim r [
        | err e ↦ (err e, g₁)
        | ok p ↦
            let (r', g₂) = prepare_mixed_input_pointers stream ts ks bs g₁ in
            elim r' [ err e ↦ (err e, g₂) | ok ps ↦ (ok (p ∷ ps), g₂) ]
      ]
  prepare_mixed_input_pointers stream _ _ _ g = (ok [], g)

  unfoldable pub enqueue_mixed_to_device :
      List InputBinding
      → List DeviceOutputTensor
      → CudaStream
      → Exec (PreparedMixedDeviceSession Raw × Gpu) Error (EnqueuedInference Raw)
  unfolding validate_prepared_mixed_inputs validate_prepared_outputs prepare_mixed_input_pointers
      bind_and_enqueue binding_name output_address
  enqueue_mixed_to_device inputs outputs stream (p, g) =
      elim (validate_prepared_mixed_inputs p.input_infos p.input_bytes p.input_kinds inputs) [
        | err e ↦ (err e, (p, g))
        | ok _ ↦ elim (validate_prepared_outputs p.output_infos p.output_bytes outputs) [
          | err e ↦ (err e, (p, g))
          | ok _ ↦
              let (r, g₁) =
                prepare_mixed_input_pointers stream inputs p.input_kinds p.staged_inputs g in
              elim r [
                | err e ↦ (err e, (p, g₁))
                | ok ptrs ↦
                    let (r', (c, g₂)) =
                      bind_and_enqueue (zip (map binding_name inputs) ptrs)
                        (map output_address outputs) stream (p.context, g₁) in
                    (r', (record p { context = c }, g₂))
              ]
        ]
      ]

  unfoldable pub prepared_run_mixed_to_device :
      List InputBinding
      → List DeviceOutputTensor
      → CudaStream
      → Exec (PreparedMixedDeviceSession Raw × Gpu) Error (Unit {0})
  unfolding enqueue_mixed_to_device synchronize_inference
  prepared_run_mixed_to_device inputs outputs stream s =
      let (r, (p, g)) = enqueue_mixed_to_device inputs outputs stream s in
      elim r [
        | err e ↦ (err e, (p, g))
        | ok i ↦ let (r', g') = synchronize_inference d i g in (r', (p, g'))
      ]
