-- ===== src/Tests/Graphs.antt =====
-- CUDA graphs, aliasing, selected outputs and prepared sessions: the theorems at concrete runs.
use tensorrt_rs.Prelude.{
  List, ℕ, suc, ◌⊎◌, ◌≢◌, ◌≡◌, refl, ◌≤◌, ◌↔◌, ◌-◌, [], ◌∷◌, some, none, pos, ok, err, arith, All,
  AllPairs, find, ◌==◌, string_eq, IsOk, length, ℕ_discrete, String-discrete, ℤ-discrete, min,
}
use tensorrt_rs.Prelude.Maps.{lookup}
use tensorrt_rs.DataType.{float, bytes_per_element}
use tensorrt_rs.Errors.{invalid_shape, output_not_inferred}
use tensorrt_rs.Tensor.{TensorInfo, element_count, count_from, count_step}
use tensorrt_rs.Tensor.{DeviceOutputTensor, DeviceInputTensor}
use tensorrt_rs.Engine.{CudaStream}
use tensorrt_rs.Session.{
  CudaGraphKey, CudaGraphKey-discrete, cuda_graph_key_eq, CudaGraphEntry, CudaGraphBackoff,
  cache_cuda_graph, capture_device_graph, max_cache_entries, max_backoff_runs,
}
use tensorrt_rs.Session.Backoff.{
  until_capture, failures, failures_lem, after_failures, asked, asked_lem,
}
use tensorrt_rs.Session.GraphCache.{
  MakesRoom, length-cache_cuda_graph, lookup-cache_cuda_graph, capture_device_graph-lookup,
}
use tensorrt_rs.Session.Select.{
  Selected, find_output, select_outputs, select_outputs-ok, select_outputs_missing,
}
use tensorrt_rs.Prepared.{new_prepared, PreparedDeviceSession, validate_prepared_inputs}
use tensorrt_rs.Prepared.Accepted.{MatchesPrepared, validate_prepared_inputs_iff}
use tensorrt_rs.Session.{DeviceRunCompletion}
use tensorrt_rs.Engine.{cuda_device}
use tensorrt_rs.Candle.{validate_cuda_output_aliases}
use tensorrt_rs.Candle.Disjoint.{Apart, AllApart, validate_cuda_output_aliases-AllApart}
use tensorrt_rs.Tests.Device.{
  Settings, try_device, row, row_input, row_output, engine_tensors, busy_session, two_rows,
  new_context,
}

abbrev graph_key : CudaGraphKey
graph_key = record { stream = 7; inputs = []; outputs = [] }

no_failures : lookup {V = CudaGraphBackoff} graph_key [] ≡ none
unfolding lookup
no_failures = refl

failures_lem_example :
    (lookup graph_key (failures 2 [] graph_key) ≡ some (after_failures 2))
    × ((until_capture (suc max_backoff_runs) graph_key (failures 2 [] graph_key)).0 ≡ 32)
failures_lem_example = failures_lem 2 [] graph_key no_failures

backed_off : lookup graph_key ((graph_key, after_failures 0) ∷ []) ≡ some (after_failures 0)
unfolding lookup CudaGraphKey-discrete
backed_off = refl

asked_lem_example :
    ((asked 5 graph_key ((graph_key, after_failures 0) ∷ [])).0 ≡ min 5 8)
    × (lookup graph_key (asked 5 graph_key ((graph_key, after_failures 0) ∷ [])).1
        ≡ some (record { remaining_runs = 8 - 5; next_runs = 16 }))
asked_lem_example =
    asked_lem 5 graph_key ((graph_key, after_failures 0) ∷ []) (after_failures 0) backed_off

abbrev graph_entry : CudaGraphEntry Settings
graph_entry = record { context = new_context; exec = 1 }

length-cache_cuda_graph_example :
    length (cache_cuda_graph 0 graph_key graph_entry []) ≤ max_cache_entries
length-cache_cuda_graph_example = length-cache_cuda_graph 0 graph_key graph_entry [] (omega arith)

-- Another key, of another stream.
abbrev other_key : CudaGraphKey
other_key = record { stream = 8; inputs = []; outputs = [] }

keys_differ : graph_key ≢ other_key
keys_differ = cc

abbrev other_cache : List (CudaGraphKey × CudaGraphEntry Settings)
other_cache = (other_key, graph_entry) ∷ []

lookup-cache_cuda_graph_example :
    let found = lookup other_key (cache_cuda_graph 0 graph_key graph_entry other_cache) in
    ((found ≡ lookup other_key other_cache) × ¬ MakesRoom 0 graph_key other_key other_cache)
    ⊎ ((found ≡ none) × MakesRoom 0 graph_key other_key other_cache)
lookup-cache_cuda_graph_example =
    lookup-cache_cuda_graph 0 graph_key other_key graph_entry other_cache keys_differ

abbrev some_stream : CudaStream
some_stream = record { raw = 7; device_location = none }

graph_captured :
    (capture_device_graph try_device 0
      (two_rows ∷ [])
      []
      some_stream
      graph_key
      (new_context, busy_session)).0
    ≡ ok tt
unfolding capture_device_graph ℕ_discrete try_device ℤ-discrete
graph_captured = refl

capture_device_graph-lookup_example :
    let (c, s) =
      (capture_device_graph try_device 0
        (two_rows ∷ [])
        []
        some_stream
        graph_key
        (new_context, busy_session)).1 in
    (entry : CudaGraphEntry Settings) × (lookup graph_key s.cuda_graph_cache ≡ some entry)
    × (entry.context ≡ c)
    × (length s.cuda_graph_cache ≤ max_cache_entries)
capture_device_graph-lookup_example =
    capture_device_graph-lookup try_device 0 (two_rows ∷ []) [] some_stream graph_key new_context
      busy_session graph_captured (omega arith)

-- An output just behind the two rows, and another behind it.
abbrev result_rows : ℕ → DeviceOutputTensor
result_rows address = record {
  name = "y";
  data_type = float;
  shape = row (pos 2);
  ptr = address;
  bytes = 24;
}

-- What a run leaves behind for its end.
abbrev completion : DeviceRunCompletion
completion = record { device_location = cuda_device 0; event = 5; keepalive = [] }

results_apart :
    validate_cuda_output_aliases (two_rows ∷ []) (result_rows 88 ∷ result_rows 128 ∷ []) ≡ ok tt
unfolding validate_cuda_output_aliases
results_apart = refl

validate_cuda_output_aliases-AllApart_example :
    All
      (λ (o : DeviceOutputTensor).
        All (λ (t : DeviceInputTensor). Apart o.ptr o.bytes t.ptr t.bytes) (two_rows ∷ []))
      (result_rows 88 ∷ result_rows 128 ∷ [])
    × AllApart (result_rows 88 ∷ result_rows 128 ∷ [])
validate_cuda_output_aliases-AllApart_example =
    validate_cuda_output_aliases-AllApart (two_rows ∷ []) (result_rows 88 ∷ result_rows 128 ∷ [])
      results_apart

y_selected : select_outputs engine_tensors ("y" ∷ []) ≡ ok (row_output ∷ [])
unfolding select_outputs String-discrete
y_selected = refl

select_outputs-ok_example : AllPairs (Selected engine_tensors) ("y" ∷ []) (row_output ∷ [])
select_outputs-ok_example = select_outputs-ok engine_tensors "y" [] y_selected

y_found : IsOk (find_output engine_tensors "y")
unfolding find_output String-discrete
y_found = tt

z_missing : find (λ (t : TensorInfo). t.name == "z") engine_tensors ≡ none
unfolding String-discrete
z_missing = refl

select_outputs_missing_example :
    select_outputs engine_tensors ("y" ∷ "z" ∷ "x" ∷ [])
    ≡ err (invalid_shape "z" output_not_inferred)
select_outputs_missing_example =
    select_outputs_missing engine_tensors ("y" ∷ []) "z" ("x" ∷ []) (y_found, tt) z_missing

abbrev two_rows_info : TensorInfo
two_rows_info = record row_input { shape = row (pos 2) }

abbrev prepared : PreparedDeviceSession Settings
prepared = record {
  context = new_context;
  input_infos = two_rows_info ∷ [];
  output_infos = [];
  input_bytes = 24 ∷ [];
  output_bytes = [];
}

two_rows_prepared : new_prepared new_context (two_rows_info ∷ []) [] ≡ ok prepared
unfolding new_prepared element_count count_from count_step bytes_per_element
two_rows_prepared = refl

validate_prepared_inputs_iff_example :
    (validate_prepared_inputs (two_rows_info ∷ []) (24 ∷ []) (two_rows ∷ []) ≡ ok tt)
    ↔ MatchesPrepared (two_rows_info ∷ []) (two_rows ∷ [])
validate_prepared_inputs_iff_example =
    validate_prepared_inputs_iff new_context (two_rows_info ∷ []) [] (two_rows ∷ [])
      two_rows_prepared
