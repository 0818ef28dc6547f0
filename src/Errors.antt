-- ===== src/Errors.antt =====
-- tensorrt/src/error.rs. The text of `InvalidShape` is the constructor of `Reason` that stands for
-- its format string, with the values that are formatted into it.
use tensorrt_rs.Prelude.{ℕ, String, List, ℤ}
use tensorrt_rs.Prelude.{Result, ok, err, ok_or, negsuc}
use tensorrt_rs.DataType.{DataType, from_binding_dtype}

pub data TensorIoMode : Type 0 where
  none input output : TensorIoMode
  unknown : ℤ → TensorIoMode

pub data Reason : Type 0 where
  dynamic_dimension : List ℤ → Reason
  element_count_overflow : Reason
  unsupported_data_type : DataType → Reason
  byte_size_overflow : Reason
  not_engine_tensor : Reason
  index_not_engine_tensor : Reason
  output_not_inferred : Reason
  rank_mismatch : ℕ → ℕ → Reason
  static_axis : ℕ → ℤ → ℤ → Reason
  not_concrete : List ℤ → Reason
  output_shape_mismatch : List ℤ → List ℤ → Reason
  null_input null_output : Reason
  zero_bytes : Reason
  kind_count : ℕ → ℕ → Reason
  kind_changed : Reason
  binding_count : ℕ → ℕ → Reason
  binding_order : String → String → String → Reason
  prepared_shape_mismatch : List ℤ → List ℤ → Reason
  range_overflow : Reason
  overlaps_input overlaps_output : String → Reason
  event_needs_cuda : Reason
  device_id_range : ℕ → Reason

-- The code of a CUDA call that failed; its message is the CUDA runtime's text for the code.
pub record CudaError : Type 0 where
  pub code : ℤ

-- `panicked` is no error of the source: it stands for a panic (an index out of bounds, an `expect`
-- that fails), which ends the call too. `Candle` and `UnsupportedCandleDType` come from the Candle
-- adapter alone and are left out. Of `UnsupportedDataType` the context, a fixed text, is left out.
pub data Error : Type 0 where
  panicked : Error
  invalid_argument allocation_failed null_pointer tensor_rt_error exception : Error
  invalid_tensor_name : String → Error
  invalid_dimensions : (len max : ℕ) → Error
  invalid_dimension_count : ℤ → Error
  invalid_shape : (tensor : String) (reason : Reason) → Error
  size_mismatch : (tensor : String) (expected_bytes actual_bytes : ℕ) → Error
  type_mismatch : (tensor : String) (expected actual : DataType) → Error
  tensor_mode_mismatch : (tensor : String) (expected actual : TensorIoMode) → Error
  unsupported_data_type : DataType → Error
  cuda : CudaError → Error

-- The status codes of the C shim.
pub data Status : Type 0 where
  okay invalid_argument allocation_failed null_pointer tensor_rt_error exception : Status

unfoldable pub from_status : Status → Result Error (Unit {0})
from_status okay = ok tt
from_status Status.invalid_argument = err Error.invalid_argument
from_status Status.allocation_failed = err Error.allocation_failed
from_status Status.null_pointer = err Error.null_pointer
from_status Status.tensor_rt_error = err Error.tensor_rt_error
from_status Status.exception = err Error.exception

-- `FromStr for DataType`
unfoldable pub from_str : String → Result Error DataType
unfolding from_binding_dtype
from_str dtype =
    ok_or (from_binding_dtype dtype) (Error.unsupported_data_type (DataType.unknown (negsuc 0)))
