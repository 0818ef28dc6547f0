-- ===== src/Session/Shapes.antt =====
-- tensorrt/src/session.rs: input shapes on an execution context, and the outputs inferred there.
use tensorrt_rs.Prelude.{
  ℕ, List, Result, ok, err, none, some, ◌==◌, if◌then◌else◌, select, is_empty, get_elem?,
}
use tensorrt_rs.Prelude
use tensorrt_rs.Prelude.Exec.{Exec, ◌>>◌, lift, modify, for_each}
use tensorrt_rs.Errors.{
  Error, input, output, invalid_shape, index_not_engine_tensor, tensor_mode_mismatch,
}
use tensorrt_rs.Tensor.{TensorInfo, TensorShape, DeviceInputTensor, io_mode_eq}
use tensorrt_rs.Engine.{
  Driver, ExecutionContext, set_input_shape, tensor_shape, input_shapes_match,
  remember_input_shapes, device_input_shapes_match, remember_device_input_shapes,
}
use tensorrt_rs.Session.State.{IoTensors}
use tensorrt_rs.Session.Validate.{validate_tensor_shape, ensure_tensor_mode}

module _ {Raw Gpu : Type 0} (d : Driver Raw Gpu) where
  -- The body of the loop of `set_input_shapes`.
  unfoldable pub set_checked_shape :
      IoTensors → TensorShape → Exec (ExecutionContext Raw) Error (Unit {0})
  unfolding validate_tensor_shape ensure_tensor_mode set_input_shape
  set_checked_shape io t = do
    lift (validate_tensor_shape io t.name t.shape)
    lift (ensure_tensor_mode io t.name input)
    set_input_shape d t.name t.shape

  unfoldable pub set_input_shapes :
      IoTensors → List TensorShape → Exec (ExecutionContext Raw) Error (Unit {0})
  unfolding set_checked_shape for_each remember_input_shapes
  set_input_shapes io inputs = do
    for_each (set_checked_shape io) inputs
    modify (remember_input_shapes inputs)

  unfoldable pub set_input_shapes_if_needed :
      IoTensors → List TensorShape → Exec (ExecutionContext Raw) Error (Unit {0})
  unfolding set_input_shapes input_shapes_match
  set_input_shapes_if_needed io inputs c =
      if input_shapes_match c inputs then (ok tt, c) else set_input_shapes io inputs c

  unfoldable pub set_device_input_shapes_if_needed :
      List DeviceInputTensor → Exec (ExecutionContext Raw) Error (Unit {0})
  unfolding device_input_shapes_match for_each set_input_shape remember_device_input_shapes
  set_device_input_shapes_if_needed inputs c =
      if device_input_shapes_match c inputs
      then (ok tt, c)
      else (for_each (λ t. set_input_shape d t.name t.shape) inputs
            >> modify (remember_device_input_shapes inputs))
          c

  -- An output of the engine with the shape that the context gives it.
  unfoldable pub with_inferred_shape : ExecutionContext Raw → TensorInfo → Result Error TensorInfo
  unfolding tensor_shape
  with_inferred_shape c t = elim (tensor_shape d c t.name) [
    | err e ↦ err e
    | ok s ↦ ok (record t { shape = s })
  ]

  unfoldable pub inferred_output_infos :
      IoTensors → ExecutionContext Raw → Result Error (List TensorInfo)
  unfolding with_inferred_shape Prelude.try_map
  inferred_output_infos io c =
      Prelude.try_map (with_inferred_shape c) (select (λ t. t.io_mode == output) io.io_tensors)

  unfoldable pub infer_shapes_with_context :
      IoTensors → List TensorShape → Exec (ExecutionContext Raw) Error (List TensorInfo)
  unfolding set_input_shapes_if_needed inferred_output_infos
  infer_shapes_with_context io inputs = do
    set_input_shapes_if_needed io inputs
    λ c. (inferred_output_infos io c, c)

  -- The closure of `inferred_output_infos_for_indices`.
  unfoldable pub inferred_output_at : IoTensors → ExecutionContext Raw → ℕ → Result Error TensorInfo
  unfolding with_inferred_shape
  inferred_output_at io c index = elim (get_elem? io.io_tensors index) [
    | none ↦ err (invalid_shape "<tensor-index>" index_not_engine_tensor)
    | some t ↦
        if t.io_mode == output
        then with_inferred_shape c t
        else err (tensor_mode_mismatch t.name output t.io_mode)
  ]

  unfoldable pub inferred_output_infos_for_indices :
      IoTensors → ExecutionContext Raw → List ℕ → Result Error (List TensorInfo)
  unfolding inferred_output_infos inferred_output_at Prelude.try_map
  inferred_output_infos_for_indices io c indices =
      if is_empty indices
      then inferred_output_infos io c
      else Prelude.try_map (inferred_output_at io c) indices
