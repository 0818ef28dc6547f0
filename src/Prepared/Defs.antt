-- ===== src/Prepared/Defs.antt =====
-- tensorrt/src/prepared.rs: the checks of bindings against what was prepared.
use tensorrt_rs.Prelude.{
  ℕ, String, List, ◌∷◌, none, some, Result, ok, err, ◌>>◌, reject, not, ◌==◌, nat_eq, string_eq,
  length, try_map, Eq, if◌then◌else◌,
}
use tensorrt_rs.DataType.{DataType, data_type_eq}
use tensorrt_rs.Errors.{
  Error, invalid_shape, type_mismatch, size_mismatch, binding_order, prepared_shape_mismatch,
  null_input, null_output, binding_count, kind_changed,
}
use tensorrt_rs.Tensor.{
  Dims, dims_eq, TensorInfo, DeviceInputTensor, DeviceOutputTensor, InputBinding, host_bound,
  host_to_device, device_bound, HostInputTensor, binding_name, tensor_byte_len,
}

pub data PreparedInputKind : Type 0 where
  host host_to_device_kind device : PreparedInputKind

unfoldable pub PreparedInputKind-discrete : Discrete PreparedInputKind
PreparedInputKind-discrete = hlevel

instance abbrev pub kind_eq : Eq PreparedInputKind
kind_eq = record { dec = PreparedInputKind-discrete }

unfoldable pub input_kind : InputBinding → PreparedInputKind
input_kind (host_bound t) = host
input_kind (host_to_device t) = host_to_device_kind
input_kind (device_bound t) = device

unfoldable pub validate_prepared_binding_name :
    TensorInfo → String → String → Result Error (Unit {0})
validate_prepared_binding_name expected actual kind =
    if expected.name == actual
    then ok tt
    else err (invalid_shape actual (binding_order kind expected.name actual))

unfoldable pub prepared_tensor_bytes : List TensorInfo → Result Error (List ℕ)
unfolding try_map tensor_byte_len
prepared_tensor_bytes infos =
    try_map (λ (info : TensorInfo). tensor_byte_len info.name info.shape info.data_type) infos

unfoldable pub validate_prepared_shape : TensorInfo → Dims → Result Error (Unit {0})
validate_prepared_shape expected actual =
    if expected.shape == actual
    then ok tt
    else err
        (invalid_shape expected.name (prepared_shape_mismatch expected.shape.values actual.values))

unfoldable pub validate_prepared_device_bytes :
    TensorInfo → ℕ → DataType → ℕ → Result Error (Unit {0})
validate_prepared_device_bytes expected expected_bytes data_type actual_bytes = do
  reject (not (expected.data_type == data_type))
      (type_mismatch expected.name expected.data_type data_type)
  reject (not (actual_bytes == expected_bytes))
      (size_mismatch expected.name expected_bytes actual_bytes)

unfoldable pub validate_prepared_input :
    TensorInfo → ℕ → DeviceInputTensor → Result Error (Unit {0})
unfolding validate_prepared_binding_name validate_prepared_shape validate_prepared_device_bytes
validate_prepared_input expected bytes t = do
  validate_prepared_binding_name expected t.name "input"
  validate_prepared_shape expected t.shape
  validate_prepared_device_bytes expected bytes t.data_type t.bytes
  reject (t.ptr == 0) (invalid_shape t.name null_input)

-- `for ((expected, expected_bytes), input) in infos.zip(bytes).zip(inputs)`
unfoldable pub check_inputs :
    List TensorInfo → List ℕ → List DeviceInputTensor → Result Error (Unit {0})
unfolding validate_prepared_input
check_inputs (e ∷ es) (b ∷ bs) (t ∷ ts) = validate_prepared_input e b t >> check_inputs es bs ts
check_inputs _ _ _ = ok tt

unfoldable pub validate_prepared_inputs :
    List TensorInfo → List ℕ → List DeviceInputTensor → Result Error (Unit {0})
unfolding check_inputs
validate_prepared_inputs infos bytes inputs = do
  reject (not (length inputs == length infos))
      (invalid_shape "<prepared-inputs>" (binding_count (length infos) (length inputs)))
  check_inputs infos bytes inputs

unfoldable pub validate_prepared_output :
    TensorInfo → ℕ → DeviceOutputTensor → Result Error (Unit {0})
unfolding validate_prepared_binding_name validate_prepared_shape validate_prepared_device_bytes
validate_prepared_output expected bytes t = do
  validate_prepared_binding_name expected t.name "output"
  validate_prepared_shape expected t.shape
  validate_prepared_device_bytes expected bytes t.data_type t.bytes
  reject (t.ptr == 0) (invalid_shape t.name null_output)

unfoldable pub check_outputs :
    List TensorInfo → List ℕ → List DeviceOutputTensor → Result Error (Unit {0})
unfolding validate_prepared_output
check_outputs (e ∷ es) (b ∷ bs) (t ∷ ts) = validate_prepared_output e b t >> check_outputs es bs ts
check_outputs _ _ _ = ok tt

unfoldable pub validate_prepared_outputs :
    List TensorInfo → List ℕ → List DeviceOutputTensor → Result Error (Unit {0})
unfolding check_outputs
validate_prepared_outputs infos bytes outputs = do
  reject (not (length outputs == length infos))
      (invalid_shape "<prepared-outputs>" (binding_count (length infos) (length outputs)))
  check_outputs infos bytes outputs

-- A host input, bound directly or staged.
unfoldable pub validate_prepared_host_input :
    TensorInfo → ℕ → HostInputTensor → Result Error (Unit {0})
unfolding validate_prepared_shape
validate_prepared_host_input expected bytes t = do
  validate_prepared_shape expected t.shape
  elim t.expected_data_type [
    | none ↦ ok tt
    | some data_type ↦
        reject (not (expected.data_type == data_type))
          (type_mismatch expected.name expected.data_type data_type)
  ]
  reject (not (t.bytes.len == bytes)) (size_mismatch expected.name bytes t.bytes.len)

unfoldable pub validate_prepared_binding : TensorInfo → ℕ → InputBinding → Result Error (Unit {0})
unfolding validate_prepared_host_input validate_prepared_shape validate_prepared_device_bytes
validate_prepared_binding expected bytes (host_bound t) =
    validate_prepared_host_input expected bytes t
validate_prepared_binding expected bytes (host_to_device t) =
    validate_prepared_host_input expected bytes t
validate_prepared_binding expected bytes (device_bound t) = do
  validate_prepared_shape expected t.shape
  validate_prepared_device_bytes expected bytes t.data_type t.bytes
  reject (t.ptr == 0) (invalid_shape t.name null_input)

unfoldable pub validate_prepared_mixed_input :
    TensorInfo → ℕ → PreparedInputKind → InputBinding → Result Error (Unit {0})
unfolding validate_prepared_binding_name input_kind validate_prepared_binding binding_name
validate_prepared_mixed_input expected bytes kind t = do
  validate_prepared_binding_name expected (binding_name t) "mixed input"
  reject (not (input_kind t == kind)) (invalid_shape (binding_name t) kind_changed)
  validate_prepared_binding expected bytes t

unfoldable pub check_mixed_inputs :
    List TensorInfo → List ℕ → List PreparedInputKind → List InputBinding → Result Error (Unit {0})
unfolding validate_prepared_mixed_input
check_mixed_inputs (e ∷ es) (b ∷ bs) (k ∷ ks) (t ∷ ts) =
    validate_prepared_mixed_input e b k t >> check_mixed_inputs es bs ks ts
check_mixed_inputs _ _ _ _ = ok tt

unfoldable pub validate_prepared_mixed_inputs :
    List TensorInfo → List ℕ → List PreparedInputKind → List InputBinding → Result Error (Unit {0})
unfolding check_mixed_inputs
validate_prepared_mixed_inputs infos bytes kinds inputs = do
  reject (not (length inputs == length infos))
      (invalid_shape "<prepared-mixed-inputs>" (binding_count (length infos) (length inputs)))
  check_mixed_inputs infos bytes kinds inputs
