-- ===== src/Session/DeviceCheck.antt =====
-- What the checks of a device input establish (`validate_device_inputs`).
use tensorrt_rs.Prelude.{
  ℕ, ◌≡◌, ◌*◌, List, some, ok, >>-eq-ok, Result-cases, All, for_each, [], ◌∷◌, arith, inl, inr,
}
use tensorrt_rs.DataType.{data_type_eq, bytes_per_element}
use tensorrt_rs.Errors.{input}
use tensorrt_rs.Tensor.{DeviceInputTensor, TensorInfo, io_mode_eq, tensor_byte_len}
use tensorrt_rs.Tensor.SizeLaws.{product, tensor_byte_len-ok}
use tensorrt_rs.Session.State.{IoTensors}
use tensorrt_rs.Session.Lookup.{tensor_info}
use tensorrt_rs.Session.Validate.{
  validate_tensor_shape, ensure_tensor_mode, ensure_tensor_type, validate_device_bytes,
  validate_device_input, validate_device_inputs,
}
use tensorrt_rs.Session.ShapeCheck.{Accepts, validate_tensor_shape_iff}

-- What a device input must meet: it names an input of the engine, of its data type, in a shape that
-- the engine accepts, with as many bytes as the shape's elements take.
pub record IsBindable (io : IoTensors) (t : DeviceInputTensor) : Type 0 where
  pub info : TensorInfo
  pub found : tensor_info io t.name ≡ ok info
  pub accepted : Accepts info.shape t.shape
  pub is_input : info.io_mode ≡ input
  pub same_type : info.data_type ≡ t.data_type
  pub size : ℕ
  pub sized : bytes_per_element t.data_type ≡ some size
  pub whole : t.bytes ≡ product t.shape.values * size

module _ (io : IoTensors) (t : DeviceInputTensor) where
  mode_ok :
      {info : TensorInfo}
      → tensor_info io t.name ≡ ok info
      → ensure_tensor_mode io t.name input ≡ ok tt
      → info.io_mode ≡ input
  unfolding ensure_tensor_mode
  mode_ok e h = ground arith

  bytes_ok :
      {info : TensorInfo}
      → tensor_info io t.name ≡ ok info
      → validate_device_bytes io t.name t.shape t.data_type t.bytes ≡ ok tt
      → (info.data_type ≡ t.data_type) × (tensor_byte_len t.name t.shape t.data_type ≡ ok t.bytes)
  unfolding validate_device_bytes
  bytes_ok e h = (ground arith, ground arith)

  found_ok :
      validate_tensor_shape io t.name t.shape ≡ ok tt
      → (info : TensorInfo) × (tensor_info io t.name ≡ ok info)
  unfolding validate_tensor_shape
  found_ok h = elim (Result-cases (tensor_info io t.name)) [
    | inl found ↦ found
    | inr (e, failed) ↦ absurd (ground arith)
  ]

  pub validate_device_input-IsBindable : validate_device_input io t ≡ ok tt → IsBindable io t
  unfolding validate_device_input
  validate_device_input-IsBindable h =
      let (shape, h₁) = >>-eq-ok (validate_tensor_shape io t.name t.shape) _ h in
      let (mode, h₂) = >>-eq-ok (ensure_tensor_mode io t.name input) _ h₁ in
      let (_, bytes) = >>-eq-ok (ensure_tensor_type io t.name t.data_type) _ h₂ in
      let (info, found) = found_ok shape in
      let (same, length) = bytes_ok found bytes in
      let (size, sized, _, whole, _) = tensor_byte_len-ok t.name t.shape t.data_type length in
      record {
        info = info;
        found = found;
        accepted = (validate_tensor_shape_iff io t.name t.shape found).0 shape;
        is_input = mode_ok found mode;
        same_type = same;
        size = size;
        sized = sized;
        whole = whole;
      }

-- Device inputs that pass the checks may all be bound: each names an input of the engine, has
-- its data type, a shape that it accepts, and the bytes of the shape's elements.
pub validate_device_inputs-IsBindable :
    (io : IoTensors) (ts : List DeviceInputTensor)
    → validate_device_inputs io ts ≡ ok tt
    → All (IsBindable io) ts
unfolding validate_device_inputs for_each
validate_device_inputs-IsBindable io [] h = tt
validate_device_inputs-IsBindable io (t ∷ ts) h =
    let (here, rest) =
      >>-eq-ok (validate_device_input io t) (for_each (validate_device_input io) ts) h in
    (validate_device_input-IsBindable io t here, validate_device_inputs-IsBindable io ts rest)
