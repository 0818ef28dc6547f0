-- ===== src/Tests/Prepared.antt =====
-- Prepared sessions with mixed bindings: the theorem at a concrete run.
use tensorrt_rs.Prelude.{◌≡◌, ◌↔◌, refl, List, [], ◌∷◌, none, pos, ok}
use tensorrt_rs.DataType.{float}
use tensorrt_rs.Errors.{input}
use tensorrt_rs.Tensor.{
  TensorInfo, InputBinding, device_bound, host_to_device, device, HostInputTensor,
}
use tensorrt_rs.Prepared.{PreparedInputKind, host_to_device_kind, validate_prepared_mixed_inputs}
use tensorrt_rs.Prepared.MixedAccepted.{AllBind, validate_prepared_mixed_inputs_iff}
use tensorrt_rs.Tests.Device.{row, two_rows}

abbrev named_rows : TensorInfo
named_rows = record { name = "x"; shape = row (pos 2); data_type = float; io_mode = input }

abbrev staged_rows : HostInputTensor
staged_rows = record {
  name = "x";
  expected_data_type = none;
  shape = row (pos 2);
  bytes = record { ptr = 4096; len = 24 };
  location = device;
}

abbrev prepared_kinds : List PreparedInputKind
prepared_kinds = PreparedInputKind.device ∷ host_to_device_kind ∷ []

abbrev mixed_rows : List InputBinding
mixed_rows = device_bound two_rows ∷ host_to_device staged_rows ∷ []

validate_prepared_mixed_inputs_iff_example :
    (validate_prepared_mixed_inputs
        (named_rows ∷ named_rows ∷ [])
        (24 ∷ 24 ∷ [])
        prepared_kinds
        mixed_rows
      ≡ ok tt)
    ↔ AllBind (named_rows ∷ named_rows ∷ []) (24 ∷ 24 ∷ []) prepared_kinds mixed_rows
validate_prepared_mixed_inputs_iff_example =
    validate_prepared_mixed_inputs_iff (named_rows ∷ named_rows ∷ []) (24 ∷ 24 ∷ []) prepared_kinds
      mixed_rows refl refl
