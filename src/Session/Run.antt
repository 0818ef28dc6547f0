-- ===== src/Session/Run.antt =====
-- tensorrt/src/session.rs: the runs with host buffers, staged inputs and device pointers.
use tensorrt_rs.Prelude.{
  ℕ, String, List, [], ◌∷◌, map, zip, Bool, true, false, ok, err, if◌then◌else◌,
}
use tensorrt_rs.Prelude.Exec.{Exec, ◌>>◌, for_each}
use tensorrt_rs.Errors.{Error}
use tensorrt_rs.Tensor.{
  HostInputTensor, HostOutputTensor, DeviceInputTensor, DeviceOutputTensor, InputBinding,
  host_shape_info, device_shape_info, binding_shape_info, binding_name,
}
use tensorrt_rs.Engine.{
  Driver, ExecutionContext, CudaStream, DeviceBuffer, set_tensor_address, enqueue_v3,
  new_device_buffer, copy_to_host, synchronize_stream, create_execution_context,
}
use tensorrt_rs.Session.State.{Session, IoTensors}
use tensorrt_rs.Session.Shapes.{set_input_shapes, set_input_shapes_if_needed}
use tensorrt_rs.Session.Pool.{with_pooled_context, on_context}
use tensorrt_rs.Session.Staging.{
  BoundInputBinding, as_mut_ptr, owned_buffers, free_buffers, collect_owned, stage_input_bindings,
  stage_mixed_input_bindings, check_host_output,
}
use tensorrt_rs.Session.Bind.{bind_checked_output, enqueue_device_on_context}

-- A context that is in use, and the session.
abbrev pub Held : Type 0 → Type 0 → Type 0
Held Raw Gpu = ExecutionContext Raw × Session Raw Gpu

unfoldable pub one_buffer : DeviceBuffer → List DeviceBuffer
one_buffer b = b ∷ []

module _ {Raw Gpu : Type 0} (d : Driver Raw Gpu) where
  abbrev pub on_device : {A : Type 0} → Exec Gpu Error A → Exec (Held Raw Gpu) Error A
  on_device m (c, s) = let (r, g) = m s.gpu in (r, (c, record s { gpu = g }))

  abbrev pub on_both :
      {A : Type 0} → Exec (ExecutionContext Raw × Gpu) Error A → Exec (Held Raw Gpu) Error A
  on_both m (c, s) = let (r, (c', g)) = m (c, s.gpu) in (r, (c', record s { gpu = g }))

  -- `set_tensor_address` for each name and address.
  unfoldable pub bind_addresses : List (String × ℕ) → Exec (ExecutionContext Raw) Error (Unit {0})
  unfolding for_each set_tensor_address
  bind_addresses pairs = for_each (λ (p : String × ℕ). set_tensor_address d p.0 p.1) pairs

  -- A body that uses values which own memory, freed however the body ends.
  unfoldable pub with_owned :
      {A B : Type 0}
      → (B → List DeviceBuffer)
      → Exec (Held Raw Gpu) Error (List B)
      → (List B → Exec (Held Raw Gpu) Error A)
      → Exec (Held Raw Gpu) Error A
  unfolding free_buffers
  with_owned {B = B} owned make body h =
      let (r, (c, s)) = make h in
      elim r [
        | err e ↦ (err e, (c, s))
        | ok bs ↦
            let (r', (c', s')) = body bs (c, s) in
            (r', (c', record s' { gpu = free_all bs s'.gpu }))
      ]
    where
      free_all : List B → Gpu → Gpu
      free_all [] g = g
      free_all (b ∷ bs) g = free_all bs (free_buffers d (owned b) g)

  -- The device buffer of a host output that passes its checks.
  unfoldable pub output_buffer :
      IoTensors → ExecutionContext Raw → HostOutputTensor → Exec Gpu Error DeviceBuffer
  unfolding check_host_output new_device_buffer
  output_buffer io c t g = elim (check_host_output d io c t) [
    | err e ↦ (err e, g)
    | ok bytes ↦ new_device_buffer d bytes g
  ]

  unfoldable pub output_buffers :
      List HostOutputTensor → Exec (Held Raw Gpu) Error (List DeviceBuffer)
  unfolding collect_owned output_buffer one_buffer
  output_buffers outputs (c, s) =
      on_device (collect_owned d one_buffer (output_buffer s.io c) outputs) (c, s)

  -- `run_host` after the input shapes are set.
  unfoldable pub run_host_staged :
      List HostInputTensor
      → List HostOutputTensor
      → CudaStream
      → List BoundInputBinding
      → Exec (Held Raw Gpu) Error (Unit {0})
  unfolding bind_addresses with_owned output_buffers one_buffer enqueue_v3 for_each copy_to_host
      synchronize_stream as_mut_ptr
  run_host_staged inputs outputs stream bindings = do
    on_context d (
        bind_addresses
          (zip (map (λ (t : HostInputTensor). t.name) inputs) (map as_mut_ptr bindings)))
    with_owned one_buffer (output_buffers outputs) λ buffers. do
      on_context d (
          bind_addresses (
            zip (map (λ (t : HostOutputTensor). t.name) outputs)
              (map (λ (b : DeviceBuffer). b.ptr) buffers)))
      on_both (enqueue_v3 d stream)
      on_device (
          for_each (λ (p : HostOutputTensor × DeviceBuffer). copy_to_host d p.1 (p.0).bytes stream)
            (zip outputs buffers))
      on_device (synchronize_stream d stream)

  unfoldable pub run_host :
      List HostInputTensor
      → List HostOutputTensor
      → CudaStream
      → Exec (Session Raw Gpu) Error (Unit {0})
  unfolding with_pooled_context set_input_shapes_if_needed host_shape_info with_owned
      stage_input_bindings owned_buffers run_host_staged
  run_host inputs outputs stream s =
      with_pooled_context d
        (on_context d (set_input_shapes_if_needed d s.io (map host_shape_info inputs))
          >> with_owned owned_buffers (on_device (stage_input_bindings d s.io stream inputs))
              (run_host_staged inputs outputs stream))
        s

  -- The end of `run_to_device` and of `run_mixed_to_device`.
  unfoldable pub run_to_device_staged :
      IoTensors
      → List String
      → List DeviceOutputTensor
      → CudaStream
      → List BoundInputBinding
      → Exec (Held Raw Gpu) Error (Unit {0})
  unfolding bind_addresses for_each bind_checked_output enqueue_v3 synchronize_stream as_mut_ptr
  run_to_device_staged io names outputs stream bindings = do
    on_context d (bind_addresses (zip names (map as_mut_ptr bindings)))
    on_context d (for_each (bind_checked_output d io) outputs)
    on_both (enqueue_v3 d stream)
    on_device (synchronize_stream d stream)

  unfoldable pub run_to_device :
      List HostInputTensor
      → List DeviceOutputTensor
      → CudaStream
      → Exec (Session Raw Gpu) Error (Unit {0})
  unfolding with_pooled_context set_input_shapes_if_needed host_shape_info with_owned
      stage_input_bindings owned_buffers run_to_device_staged
  run_to_device inputs outputs stream s =
      with_pooled_context d
        (on_context d (set_input_shapes_if_needed d s.io (map host_shape_info inputs))
          >> with_owned owned_buffers (on_device (stage_input_bindings d s.io stream inputs)) (
              run_to_device_staged s.io (map (λ (t : HostInputTensor). t.name) inputs) outputs
                stream))
        s

  unfoldable pub run_mixed_to_device :
      List InputBinding
      → List DeviceOutputTensor
      → CudaStream
      → Exec (Session Raw Gpu) Error (Unit {0})
  unfolding with_pooled_context set_input_shapes_if_needed binding_shape_info with_owned
      stage_mixed_input_bindings owned_buffers run_to_device_staged binding_name
  run_mixed_to_device inputs outputs stream s =
      with_pooled_context d
        (on_context d (set_input_shapes_if_needed d s.io (map binding_shape_info inputs))
          >> with_owned owned_buffers (on_device (stage_mixed_input_bindings d s.io stream inputs))
              (run_to_device_staged s.io (map binding_name inputs) outputs stream))
        s

-- `EnqueuedInference`, and `PreparedEnqueuedInference` with the context of its session.
pub record EnqueuedInference (Raw : Type 0) : Type 0 where
  pub context : ExecutionContext Raw
  pub stream : CudaStream
  pub synchronized : Bool

module _ {Raw Gpu : Type 0} (d : Driver Raw Gpu) where
  unfoldable pub enqueue_device :
      List DeviceInputTensor
      → List DeviceOutputTensor
      → CudaStream
      → Exec (Session Raw Gpu) Error (EnqueuedInference Raw)
  unfolding create_execution_context set_input_shapes device_shape_info enqueue_device_on_context
  enqueue_device inputs outputs stream s =
      let (r, g) = create_execution_context d s.gpu in
      elim r [
        | err e ↦ (err e, record s { gpu = g })
        | ok c ↦
            let (r', c') = set_input_shapes d s.io (map device_shape_info inputs) c in
            elim r' [
              | err e ↦ (err e, record s { gpu = g })
              | ok _ ↦
                  let (r'', (c'', g')) =
                    enqueue_device_on_context d s.io inputs outputs stream (c', g) in
                  elim r'' [
                    | err e ↦ (err e, record s { gpu = g' })
                    | ok _ ↦ (
                      ok (record { context = c''; stream = stream; synchronized = false }),
                      record s { gpu = g' },
                    )
                  ]
            ]
      ]

  -- `Drop for EnqueuedInference`
  unfoldable pub drop_inference : EnqueuedInference Raw → Gpu → Gpu
  unfolding synchronize_stream
  drop_inference i g = if i.synchronized then g else (synchronize_stream d i.stream g).1

  -- `synchronize(mut self)`, with the drop of `self` at its end.
  unfoldable pub synchronize_inference : EnqueuedInference Raw → Exec Gpu Error (Unit {0})
  unfolding synchronize_stream drop_inference
  synchronize_inference i g =
      let (r, g') = synchronize_stream d i.stream g in
      elim r [
        | err e ↦ (err e, drop_inference i g')
        | ok _ ↦ (ok tt, drop_inference (record i { synchronized = true }) g')
      ]

  unfoldable pub run_device :
      List DeviceInputTensor
      → List DeviceOutputTensor
      → CudaStream
      → Exec (Session Raw Gpu) Error (Unit {0})
  unfolding enqueue_device synchronize_inference
  run_device inputs outputs stream s =
      let (r, s') = enqueue_device inputs outputs stream s in
      elim r [
        | err e ↦ (err e, s')
        | ok i ↦ let (r', g) = synchronize_inference i s'.gpu in (r', record s' { gpu = g })
      ]
