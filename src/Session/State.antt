-- ===== src/Session/State.antt =====
-- tensorrt/src/session.rs: the state of a `Session`, its plan keys (session/plan.rs) and graph keys.
use tensorrt_rs.Prelude.{ℕ, ◌*◌, String, List, Eq, min, ℕ_discrete}
use tensorrt_rs.DataType.{DataType, DataType-discrete}
use tensorrt_rs.Tensor.{Dims, Dims-discrete, TensorInfo, DeviceInputTensor, DeviceOutputTensor}
use tensorrt_rs.Engine.{ExecutionContext, DeviceLocation}

pub record DeviceOutputPlan : Type 0 where
  pub name : String
  pub data_type : DataType
  pub shape : Dims
  pub bytes : ℕ

pub record RunPlanInputKey : Type 0 where
  pub tensor_index : ℕ
  pub data_type : DataType
  pub shape : Dims
  pub bytes : ℕ

pub record RunPlanKey : Type 0 where
  pub inputs : List RunPlanInputKey
  pub outputs : List ℕ

unfoldable pub input_key : ℕ × DeviceInputTensor → RunPlanInputKey
input_key (i, t) = record {
  tensor_index = i;
  data_type = t.data_type;
  shape = t.shape;
  bytes = t.bytes;
}

unfoldable pub RunPlanKey-discrete : Discrete RunPlanKey
unfolding ℕ_discrete DataType-discrete Dims-discrete
RunPlanKey-discrete = hlevel (ℕ_discrete, DataType-discrete, Dims-discrete)

instance abbrev pub run_plan_key_eq : Eq RunPlanKey
run_plan_key_eq = record { dec = RunPlanKey-discrete }

pub record CudaGraphTensorKey : Type 0 where
  pub tensor_index : ℕ
  pub data_type : DataType
  pub shape : Dims
  pub ptr : ℕ
  pub bytes : ℕ

pub record CudaGraphKey : Type 0 where
  pub stream : ℕ
  pub inputs : List CudaGraphTensorKey
  pub outputs : List CudaGraphTensorKey

unfoldable pub from_input : ℕ × DeviceInputTensor → CudaGraphTensorKey
from_input (i, t) = record {
  tensor_index = i;
  data_type = t.data_type;
  shape = t.shape;
  ptr = t.ptr;
  bytes = t.bytes;
}

unfoldable pub from_output : ℕ × DeviceOutputTensor → CudaGraphTensorKey
from_output (i, t) = record {
  tensor_index = i;
  data_type = t.data_type;
  shape = t.shape;
  ptr = t.ptr;
  bytes = t.bytes;
}

unfoldable pub CudaGraphKey-discrete : Discrete CudaGraphKey
unfolding ℕ_discrete DataType-discrete Dims-discrete
CudaGraphKey-discrete = hlevel (ℕ_discrete, DataType-discrete, Dims-discrete)

instance abbrev pub cuda_graph_key_eq : Eq CudaGraphKey
cuda_graph_key_eq = record { dec = CudaGraphKey-discrete }

abbrev pub initial_backoff_runs : ℕ
initial_backoff_runs = 8

abbrev pub max_backoff_runs : ℕ
max_backoff_runs = 64

abbrev pub max_cache_entries : ℕ
max_cache_entries = 16

pub record CudaGraphBackoff : Type 0 where
  pub remaining_runs : ℕ
  pub next_runs : ℕ

unfoldable pub new_backoff : CudaGraphBackoff
new_backoff = record {
  remaining_runs = initial_backoff_runs;
  next_runs = min (initial_backoff_runs * 2) max_backoff_runs;
}

unfoldable pub back_off_again : CudaGraphBackoff → CudaGraphBackoff
back_off_again b = record {
  remaining_runs = b.next_runs;
  next_runs = min (b.next_runs * 2) max_backoff_runs;
}

-- The tensors that a run keeps alive are named by numbers.
pub record InFlightContext (Raw : Type 0) : Type 0 where
  pub context : ExecutionContext Raw
  pub device_location : DeviceLocation
  pub event : ℕ
  pub keepalive : List ℕ

pub record CudaGraphEntry (Raw : Type 0) : Type 0 where
  pub context : ExecutionContext Raw
  pub exec : ℕ

pub record InFlightGraph (Raw : Type 0) : Type 0 where
  pub device_location : DeviceLocation
  pub event : ℕ
  pub keepalive : List ℕ
  pub graph_entry : CudaGraphEntry Raw

pub record DeviceRunCompletion : Type 0 where
  pub device_location : DeviceLocation
  pub event : ℕ
  pub keepalive : List ℕ

-- `io_tensors` and `io_tensor_index`, which no call changes.
pub record IoTensors : Type 0 where
  pub io_tensors : List TensorInfo
  pub io_tensor_index : List (String × ℕ)

-- `gpu` is the state of the native libraries; all else are the fields of the source.
pub record Session (Raw Gpu : Type 0) : Type 0 where
  pub context_pool : List (ExecutionContext Raw)
  pub in_flight_contexts : List (InFlightContext Raw)
  pub event_pool : List (DeviceLocation × List ℕ)
  pub run_plan_cache : List (RunPlanKey × List DeviceOutputPlan)
  pub cuda_graph_cache : List (CudaGraphKey × CudaGraphEntry Raw)
  pub cuda_graph_backoff : List (CudaGraphKey × CudaGraphBackoff)
  pub in_flight_graphs : List (InFlightGraph Raw)
  pub io : IoTensors
  pub gpu : Gpu
