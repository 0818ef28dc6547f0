-- ===== src/Tests/Device.antt =====
-- A device to try the code on: contexts keep the shapes and the addresses that are set, and the events below 10 have
-- finished.
use tensorrt_rs.Prelude.{
  Option, ℕ, refl, Bool, true, String, List, [], ◌∷◌, none, some, pos, negsuc, ℤ, ltb,
  if◌then◌else◌, arith, ==_refl, ==_iff, string_eq,
}
use tensorrt_rs.Prelude.Maps.{lookup, insert, lookup-insert}
use tensorrt_rs.Errors.{okay, input, output}
use tensorrt_rs.DataType.{float}
use tensorrt_rs.Tensor.{Dims, TensorInfo, TensorShape, DeviceInputTensor}
use tensorrt_rs.Tensor.Ffi.{FfiDims}
use tensorrt_rs.Engine.{cuda_device, Driver, ExecutionContext}
use tensorrt_rs.Engine.Laws.{ShapeLaws, AddressLaws}
use tensorrt_rs.Session.{InFlightContext, Session, IoTensors}

abbrev pub Settings : Type 0
Settings = List (String × FfiDims) × List (String × ℕ)

abbrev pub finished : ℕ → Bool
finished event = ltb event 10

abbrev pub scalar : FfiDims
scalar = record { nb_dims = pos 0; d = [] }

unfoldable pub try_device : Driver Settings (Unit {0})
unfolding insert
try_device = record {
  create_context = λ g. (okay, some ([], []), g);
  set_input_shape = λ r n s. (okay, (insert n s r.0, r.1));
  tensor_shape = λ r n. (okay, scalar);
  set_tensor_address = λ r n a. (okay, (r.0, insert n a r.1));
  enqueue_v3 = λ r s g. (okay, r, g);
  malloc = λ b g. (pos 0, 16, g);
  free = λ p g. g;
  memcpy = λ a b c s g. (pos 0, g);
  stream_synchronize = λ s g. (pos 0, g);
  get_device = λ g. (pos 0, pos 0, g);
  set_device = λ i g. (pos 0, g);
  event_create = λ g. (pos 0, 1, g);
  event_record = λ e s g. (pos 0, g);
  event_query = λ e g. ((if finished e then pos 0 else pos 600), g);
  begin_capture = λ s g. (pos 0, g);
  end_capture = λ s g. (pos 0, 1, g);
  graph_instantiate = λ h g. (pos 0, 1, g);
  graph_launch = λ e s g. (pos 0, g);
  try_reserve = λ g. (true, g);
}

unfoldable pub try_shape_laws : ShapeLaws try_device
unfolding try_device lookup insert
try_shape_laws = record {
  input_shape = λ r n. lookup n r.0;
  set_same = λ r n s h. ground (arith, lookup-insert n n s r.0, ==_refl n);
  set_other = λ r n m s ne. ground (arith, lookup-insert n m s r.0, ==_iff n m);
  address_keeps = λ r n m a. refl;
  enqueue_keeps = λ r s g m. refl;
}

abbrev or_null : Option ℕ → ℕ
or_null none = 0
or_null (some a) = a

unfoldable pub try_address_laws : AddressLaws try_device
unfolding try_device lookup insert
try_address_laws = record {
  address = λ r n. or_null (lookup n r.1);
  bind_same = λ r n a h. ground (arith, lookup-insert n n a r.1, ==_refl n);
  bind_other = λ r n m a ne. ground (arith, lookup-insert n m a r.1, ==_iff n m);
  not_set = λ g r n h. ground arith;
}

abbrev pub row : ℤ → Dims
row n = record { values = n ∷ pos 3 ∷ [] }

-- An engine that takes rows of three values, any number of them.
abbrev pub row_input : TensorInfo
row_input = record { name = "x"; shape = row (negsuc 0); data_type = float; io_mode = input }

abbrev pub row_output : TensorInfo
row_output = record { name = "y"; shape = row (negsuc 0); data_type = float; io_mode = output }

abbrev pub engine_tensors : List TensorInfo
engine_tensors = row_input ∷ row_output ∷ []

abbrev pub try_io : IoTensors
try_io = record { io_tensors = engine_tensors; io_tensor_index = ("x", 0) ∷ ("y", 1) ∷ [] }

abbrev pub rows : ℕ → TensorShape
rows n = record { name = "x"; shape = row (pos n) }

-- Two rows in device memory.
abbrev pub two_rows : DeviceInputTensor
two_rows = record { name = "x"; data_type = float; shape = row (pos 2); ptr = 64; bytes = 24 }

abbrev pub new_context : ExecutionContext Settings
new_context = record { raw = ([], []); input_shapes = none }

-- A context whose work ends with an event on the device 0.
abbrev pub in_flight : ℕ → InFlightContext Settings
in_flight event = record {
  context = new_context;
  device_location = cuda_device 0;
  event = event;
  keepalive = [];
}

abbrev pub busy_session : Session Settings (Unit {0})
busy_session = record {
  context_pool = [];
  in_flight_contexts = in_flight 3 ∷ in_flight 30 ∷ in_flight 4 ∷ [];
  event_pool = [];
  run_plan_cache = [];
  cuda_graph_cache = [];
  cuda_graph_backoff = [];
  in_flight_graphs = [];
  io = try_io;
  gpu = tt;
}
