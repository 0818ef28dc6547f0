-- ===== src/Session/Plan.antt =====
-- tensorrt/src/session.rs: output plans, which are kept by the key of a run.
use tensorrt_rs.Prelude.{ℕ, String, List, map, zip, none, some, Result, ok, err, ◌>>=◌}
use tensorrt_rs.Prelude
use tensorrt_rs.Prelude.Maps.{lookup, insert}
use tensorrt_rs.Prelude.Exec.{Exec}
use tensorrt_rs.Errors.{Error}
use tensorrt_rs.Tensor.{TensorInfo, DeviceInputTensor, tensor_byte_len}
use tensorrt_rs.Engine.{Driver, ExecutionContext}
use tensorrt_rs.Session.State.{
  Session, DeviceOutputPlan, RunPlanKey, input_key, run_plan_key_eq, IoTensors,
}
use tensorrt_rs.Session.Lookup.{tensor_index}
use tensorrt_rs.Session.Validate.{validate_device_inputs}
use tensorrt_rs.Session.Shapes.{
  set_device_input_shapes_if_needed, inferred_output_infos_for_indices,
}

unfoldable pub device_run_plan_key :
    IoTensors → List DeviceInputTensor → List String → Result Error RunPlanKey
unfolding Prelude.try_map tensor_index input_key
device_run_plan_key io inputs output_names =
    Prelude.try_map (λ (t : DeviceInputTensor). tensor_index io t.name) inputs >>= λ input_indices.
    Prelude.try_map (tensor_index io) output_names >>= λ output_indices.
    ok (record { inputs = map input_key (zip input_indices inputs); outputs = output_indices })

unfoldable pub device_output_plan : TensorInfo → Result Error DeviceOutputPlan
unfolding tensor_byte_len
device_output_plan info = tensor_byte_len info.name info.shape info.data_type >>= λ bytes.
    ok (record { name = info.name; data_type = info.data_type; shape = info.shape; bytes = bytes })

module _ {Raw Gpu : Type 0} (d : Driver Raw Gpu) where
  -- The plan for a context whose input shapes are set.
  unfoldable pub inferred_plan :
      IoTensors → ExecutionContext Raw → List ℕ → Result Error (List DeviceOutputPlan)
  unfolding inferred_output_infos_for_indices device_output_plan Prelude.try_map
  inferred_plan io c outputs = inferred_output_infos_for_indices d io c outputs >>= λ infos.
      Prelude.try_map device_output_plan infos

  -- The plan is looked up by its key, and is inferred and stored where it is not there.
  unfoldable pub cached_device_output_plan :
      List DeviceInputTensor
      → List String
      → Exec (ExecutionContext Raw × Session Raw Gpu) Error (List DeviceOutputPlan)
  unfolding device_run_plan_key lookup insert set_device_input_shapes_if_needed
      validate_device_inputs inferred_plan
  cached_device_output_plan inputs output_names (c, s) =
      elim (device_run_plan_key s.io inputs output_names) [
        | err e ↦ (err e, (c, s))
        | ok key ↦ elim (lookup key s.run_plan_cache) [
          | some plan ↦
              let (r, c') = set_device_input_shapes_if_needed d inputs c in
              (r >>= (λ _. ok plan), (c', s))
          | none ↦ elim (validate_device_inputs s.io inputs) [
            | err e ↦ (err e, (c, s))
            | ok _ ↦
                let (r, c') = set_device_input_shapes_if_needed d inputs c in
                elim r [
                  | err e ↦ (err e, (c', s))
                  | ok _ ↦ elim (inferred_plan s.io c' key.outputs) [
                    | err e ↦ (err e, (c', s))
                    | ok plan ↦ (
                      ok plan,
                      (c', record s { run_plan_cache = insert key plan s.run_plan_cache }),
                    )
                  ]
                ]
          ]
        ]
      ]
