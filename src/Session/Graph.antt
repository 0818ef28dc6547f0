-- ===== src/Session/Graph.antt =====
-- tensorrt/src/session.rs: capture, caching and replay of CUDA graphs, with the back-off after a
-- capture that failed.
use tensorrt_rs.Prelude.{
  ℕ, zero, suc, ◌-◌, ◌%◌, String, Bool, true, false, ◌&&◌, List, [], ◌∷◌, map, zip, Option, none,
  some, Result, ok, err, length, get_elem?, if◌then◌else◌, leb, not, is_empty, ◌==◌, nat_eq, ◌>>=◌,
}
use tensorrt_rs.Prelude
use tensorrt_rs.Prelude.Exec
use tensorrt_rs.Prelude.Exec.{Exec, ◌>>◌, reject}
use tensorrt_rs.Prelude.Maps.{lookup, insert, erase}
use tensorrt_rs.Errors.{Error, invalid_shape, null_input, null_output}
use tensorrt_rs.Tensor.{DeviceInputTensor, DeviceOutputTensor}
use tensorrt_rs.Engine.{
  Driver, ExecutionContext, CudaStream, set_tensor_address, enqueue_v3, capture, launch,
}
use tensorrt_rs.Session.State.{
  Session, IoTensors, CudaGraphKey, cuda_graph_key_eq, CudaGraphBackoff, new_backoff,
  back_off_again, CudaGraphEntry, from_input, from_output, max_cache_entries, DeviceRunCompletion,
}
use tensorrt_rs.Session.Lookup.{tensor_index}
use tensorrt_rs.Session.Pool.{
  return_context, recycle_completion_event, defer_context_until_stream_complete,
  defer_graph_until_stream_complete,
}

unfoldable pub cuda_graph_key :
    IoTensors
    → List DeviceInputTensor
    → List DeviceOutputTensor
    → CudaStream
    → Result Error CudaGraphKey
unfolding Prelude.try_map tensor_index from_input from_output
cuda_graph_key io inputs outputs stream =
    Prelude.try_map (λ (t : DeviceInputTensor). tensor_index io t.name) inputs >>= λ input_indices.
    Prelude.try_map (λ (t : DeviceOutputTensor). tensor_index io t.name) outputs
    >>= λ output_indices. ok (record {
      stream = stream.raw;
      inputs = map from_input (zip input_indices inputs);
      outputs = map from_output (zip output_indices outputs);
    })

abbrev pub Backoffs : Type 0
Backoffs = List (CudaGraphKey × CudaGraphBackoff)

unfoldable pub should_skip_cuda_graph_capture : CudaGraphKey → Backoffs → Bool × Backoffs
unfolding lookup insert
should_skip_cuda_graph_capture key m = elim (lookup key m) [
  | none ↦ (false, m)
  | some b ↦
      if b.remaining_runs == 0
      then (false, m)
      else (true, insert key (record b { remaining_runs = b.remaining_runs - 1 }) m)
]

unfoldable pub record_cuda_graph_capture_failure : CudaGraphKey → Backoffs → Backoffs
unfolding lookup insert new_backoff back_off_again
record_cuda_graph_capture_failure key m = elim (lookup key m) [
  | none ↦ insert key new_backoff m
  | some b ↦ insert key (back_off_again b) m
]

unfoldable pub clear_cuda_graph_capture_backoff : CudaGraphKey → Backoffs → Backoffs
unfolding erase
clear_cuda_graph_capture_backoff key m = erase key m

module _ {Raw : Type 0} where
  -- `cache.keys().next()` is the first key in the hash table's order, which is arbitrary: `order`
  -- picks its position.
  unfoldable pub first_key : ℕ → List (CudaGraphKey × CudaGraphEntry Raw) → Option CudaGraphKey
  first_key order cache = elim (get_elem? cache (order % length cache)) [
    | none ↦ none
    | some (k, e) ↦ some k
  ]

  unfoldable pub cache_cuda_graph :
      ℕ
      → CudaGraphKey
      → CudaGraphEntry Raw
      → List (CudaGraphKey × CudaGraphEntry Raw)
      → List (CudaGraphKey × CudaGraphEntry Raw)
  unfolding lookup insert erase first_key
  cache_cuda_graph order key entry cache = insert key entry (
      if leb max_cache_entries (length cache)
      then elim (lookup key cache) [
        | some old ↦ cache
        | none ↦ elim (first_key order cache) [ none ↦ cache | some oldest ↦ erase oldest cache ]
      ]
      else cache)

module _ {Raw Gpu : Type 0} (d : Driver Raw Gpu) where
  unfoldable pub bind_device_input :
      DeviceInputTensor → Exec (ExecutionContext Raw) Error (Unit {0})
  unfolding set_tensor_address
  bind_device_input t =
      reject (t.ptr == 0) (invalid_shape t.name null_input) >> set_tensor_address d t.name t.ptr

  unfoldable pub bind_device_output :
      DeviceOutputTensor → Exec (ExecutionContext Raw) Error (Unit {0})
  unfolding set_tensor_address
  bind_device_output t =
      reject (t.ptr == 0) (invalid_shape t.name null_output) >> set_tensor_address d t.name t.ptr

  unfoldable pub bind_device_tensors_on_context :
      List DeviceInputTensor
      → List DeviceOutputTensor
      → Exec (ExecutionContext Raw) Error (Unit {0})
  unfolding bind_device_input bind_device_output Exec.for_each
  bind_device_tensors_on_context inputs outputs =
      Exec.for_each bind_device_input inputs >> Exec.for_each bind_device_output outputs

  unfoldable pub enqueue_device_with_context :
      List DeviceInputTensor
      → List DeviceOutputTensor
      → CudaStream
      → Exec (ExecutionContext Raw × Gpu) Error (Unit {0})
  unfolding bind_device_tensors_on_context enqueue_v3
  enqueue_device_with_context inputs outputs stream (c, g) =
      let (r, c') = bind_device_tensors_on_context inputs outputs c in
      elim r [ err e ↦ (err e, (c', g)) | ok _ ↦ enqueue_v3 d stream (c', g) ]

  -- The context goes into the cached graph; on an error it comes back.
  unfoldable pub capture_device_graph :
      ℕ
      → List DeviceInputTensor
      → List DeviceOutputTensor
      → CudaStream
      → CudaGraphKey
      → Exec (ExecutionContext Raw × Session Raw Gpu) Error (Unit {0})
  unfolding bind_device_tensors_on_context capture enqueue_v3 cache_cuda_graph
  capture_device_graph order inputs outputs stream key (c, s) =
      let (r, c') = bind_device_tensors_on_context inputs outputs c in
      elim r [
        | err e ↦ (err e, (c', s))
        | ok _ ↦
            let (r', (c'', g)) = capture d stream (enqueue_v3 d stream) (c', s.gpu) in
            elim r' [
              | err e ↦ (err e, (c'', record s { gpu = g }))
              | ok exec ↦ (
                ok tt,
                (
                  c'',
                  record s {
                    cuda_graph_cache =
                        cache_cuda_graph order key (record { context = c''; exec = exec })
                          s.cuda_graph_cache;
                    gpu = g;
                  },
                ),
              )
            ]
      ]

  -- A normal enqueue, whose context is deferred; on an error it goes back to the pool.
  unfoldable pub enqueue_and_defer :
      ExecutionContext Raw
      → List DeviceInputTensor
      → List DeviceOutputTensor
      → CudaStream
      → DeviceRunCompletion
      → Exec (Session Raw Gpu) Error (Unit {0})
  unfolding enqueue_device_with_context return_context defer_context_until_stream_complete
  enqueue_and_defer c inputs outputs stream run s =
      let (r, (c', g)) = enqueue_device_with_context inputs outputs stream (c, s.gpu) in
      elim r [
        | err e ↦ (err e, return_context d c' (record s { gpu = g }))
        | ok _ ↦
            defer_context_until_stream_complete d c' run.device_location run.event stream
              run.keepalive (record s { gpu = g })
      ]

  -- A graph is launched and deferred; one that cannot be launched leaves the cache.
  unfoldable pub launch_and_defer :
      CudaGraphKey
      → CudaGraphEntry Raw
      → CudaStream
      → DeviceRunCompletion
      → Exec (Session Raw Gpu) Error (Unit {0})
  unfolding launch erase recycle_completion_event defer_graph_until_stream_complete
  launch_and_defer key entry stream run s =
      let (r, g) = launch d entry.exec stream s.gpu in
      elim r [
        | err e ↦ (
          err e,
          recycle_completion_event d run.device_location run.event
              (record s { cuda_graph_cache = erase key s.cuda_graph_cache; gpu = g }),
        )
        | ok _ ↦
            defer_graph_until_stream_complete d run.device_location run.event stream run.keepalive
              entry (record s { gpu = g })
      ]
