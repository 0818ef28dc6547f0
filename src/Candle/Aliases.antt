-- ===== src/Candle/Aliases.antt =====
-- tensorrt/src/candle.rs: `CudaMemoryRange` and `validate_cuda_output_aliases`.
use tensorrt_rs.Prelude.{
  ℕ, String, Bool, ◌&&◌, List, [], ◌∷◌, Result, ok, ok_or, ◌>>=◌, ◌>>◌, reject, for_each, ltb,
}
use tensorrt_rs.Errors.{Error, invalid_shape, range_overflow, overlaps_input, overlaps_output}
use tensorrt_rs.Tensor.{DeviceInputTensor, DeviceOutputTensor, checked_add}

pub record CudaMemoryRange : Type 0 where
  pub name : String
  pub start : ℕ
  pub stop : ℕ

unfoldable pub new_range : String → ℕ → ℕ → Result Error CudaMemoryRange
unfolding checked_add
new_range name ptr bytes =
    ok_or (checked_add ptr bytes) (invalid_shape name range_overflow) >>= λ stop.
    ok (record { name = name; start = ptr; stop = stop })

unfoldable pub overlaps : CudaMemoryRange → CudaMemoryRange → Bool
overlaps a b = ltb a.start b.stop && ltb b.start a.stop

-- The bodies of the two inner loops.
unfoldable pub check_input_alias : CudaMemoryRange → DeviceInputTensor → Result Error (Unit {0})
unfolding new_range overlaps
check_input_alias output t = new_range t.name t.ptr t.bytes >>= λ range.
    reject (overlaps output range) (invalid_shape output.name (overlaps_input range.name))

unfoldable pub check_output_alias : CudaMemoryRange → DeviceOutputTensor → Result Error (Unit {0})
unfolding new_range overlaps
check_output_alias output t = new_range t.name t.ptr t.bytes >>= λ range.
    reject (overlaps output range) (invalid_shape output.name (overlaps_output range.name))

-- The two loops over the outputs.
unfoldable pub check_inputs_apart :
    List DeviceInputTensor → List DeviceOutputTensor → Result Error (Unit {0})
unfolding new_range for_each check_input_alias
check_inputs_apart inputs [] = ok tt
check_inputs_apart inputs (o ∷ os) =
    (new_range o.name o.ptr o.bytes >>= λ range. for_each (check_input_alias range) inputs)
    >> check_inputs_apart inputs os

unfoldable pub check_outputs_apart : List DeviceOutputTensor → Result Error (Unit {0})
unfolding new_range for_each check_output_alias
check_outputs_apart [] = ok tt
check_outputs_apart (o ∷ os) =
    (new_range o.name o.ptr o.bytes >>= λ range. for_each (check_output_alias range) os)
    >> check_outputs_apart os

unfoldable pub validate_cuda_output_aliases :
    List DeviceInputTensor → List DeviceOutputTensor → Result Error (Unit {0})
unfolding check_inputs_apart check_outputs_apart
validate_cuda_output_aliases inputs outputs =
    check_inputs_apart inputs outputs >> check_outputs_apart outputs
