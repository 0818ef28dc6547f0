-- ===== src/Tensor/Defs.antt =====
-- tensorrt/src/tensor.rs: `Dims` and the named tensors. A borrowed slice of bytes is its address
-- and its length; a raw pointer is an address, null at 0.
use tensorrt_rs.Prelude.{
  ℕ, String, Bool, List, Option, none, some, ℤ, Eq, Result, ok, err, any, length, ltb, is_negative,
  if◌then◌else◌, ℤ-discrete,
}
use tensorrt_rs.DataType.{DataType}
use tensorrt_rs.Errors.{Error, invalid_dimensions, TensorIoMode}

abbrev pub max_dims : ℕ
max_dims = 8

pub record Dims : Type 0 where
  pub values : List ℤ

unfoldable pub Dims-discrete : Discrete Dims
unfolding ℤ-discrete
Dims-discrete = hlevel ℤ-discrete

instance abbrev pub dims_eq : Eq Dims
dims_eq = record { dec = Dims-discrete }

unfoldable pub new_dims : List ℤ → Result Error Dims
new_dims values =
    if ltb max_dims (length values)
    then err (invalid_dimensions (length values) max_dims)
    else ok (record { values = values })

unfoldable pub rank : Dims → ℕ
rank d = length d.values

unfoldable pub is_dynamic : Dims → Bool
is_dynamic d = any is_negative d.values

unfoldable pub TensorIoMode-discrete : Discrete TensorIoMode
unfolding ℤ-discrete
TensorIoMode-discrete = hlevel ℤ-discrete

instance abbrev pub io_mode_eq : Eq TensorIoMode
io_mode_eq = record { dec = TensorIoMode-discrete }

pub record TensorInfo : Type 0 where
  pub name : String
  pub shape : Dims
  pub data_type : DataType
  pub io_mode : TensorIoMode

unfoldable pub with_io_mode : String → DataType → Dims → TensorIoMode → TensorInfo
with_io_mode n t s m = record { name = n; shape = s; data_type = t; io_mode = m }

pub data TensorLocation : Type 0 where
  device host : TensorLocation

pub record TensorShape : Type 0 where
  pub name : String
  pub shape : Dims

-- `&[u8]` and `&mut [u8]`
pub record Slice : Type 0 where
  pub ptr : ℕ
  pub len : ℕ

pub record HostInputTensor : Type 0 where
  pub name : String
  pub expected_data_type : Option DataType
  pub shape : Dims
  pub bytes : Slice
  pub location : TensorLocation

unfoldable pub host_input : String → Dims → Slice → HostInputTensor
host_input n s b = record {
  name = n;
  expected_data_type = none;
  shape = s;
  bytes = b;
  location = device;
}

unfoldable pub with_data_type : String → DataType → Dims → Slice → HostInputTensor
with_data_type n t s b = record {
  name = n;
  expected_data_type = some t;
  shape = s;
  bytes = b;
  location = device;
}

unfoldable pub with_location : HostInputTensor → TensorLocation → HostInputTensor
with_location t l = record t { location = l }

unfoldable pub host_shape_info : HostInputTensor → TensorShape
host_shape_info t = record { name = t.name; shape = t.shape }

pub record DeviceInputTensor : Type 0 where
  pub name : String
  pub data_type : DataType
  pub shape : Dims
  pub ptr : ℕ
  pub bytes : ℕ

unfoldable pub device_shape_info : DeviceInputTensor → TensorShape
device_shape_info t = record { name = t.name; shape = t.shape }

pub record HostOutputTensor : Type 0 where
  pub name : String
  pub shape : Dims
  pub bytes : Slice

pub record DeviceOutputTensor : Type 0 where
  pub name : String
  pub data_type : DataType
  pub shape : Dims
  pub ptr : ℕ
  pub bytes : ℕ

pub data InputBinding : Type 0 where
  host_bound : HostInputTensor → InputBinding
  host_to_device : HostInputTensor → InputBinding
  device_bound : DeviceInputTensor → InputBinding

unfoldable pub binding_host : String → DataType → Dims → Slice → InputBinding
unfolding with_data_type with_location
binding_host n t s b = host_bound (with_location (with_data_type n t s b) host)

unfoldable pub binding_host_to_device : String → DataType → Dims → Slice → InputBinding
unfolding with_data_type with_location
binding_host_to_device n t s b = host_to_device (with_location (with_data_type n t s b) device)

unfoldable pub binding_name : InputBinding → String
binding_name (host_bound t) = t.name
binding_name (host_to_device t) = t.name
binding_name (device_bound t) = t.name

unfoldable pub binding_shape_info : InputBinding → TensorShape
unfolding host_shape_info device_shape_info
binding_shape_info (host_bound t) = host_shape_info t
binding_shape_info (host_to_device t) = host_shape_info t
binding_shape_info (device_bound t) = device_shape_info t

-- `From<HostInputTensor>`
unfoldable pub from_host : HostInputTensor → InputBinding
from_host t = elim t.location [ host ↦ host_bound t | device ↦ host_to_device t ]
