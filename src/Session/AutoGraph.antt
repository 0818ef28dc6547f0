-- ===== src/Session/AutoGraph.antt =====
-- tensorrt/src/session.rs: `enqueue_device_auto_graph`.
use tensorrt_rs.Prelude.{ℕ, List, none, some, ok, err, is_empty, if◌then◌else◌}
use tensorrt_rs.Prelude.Exec.{Exec}
use tensorrt_rs.Prelude.Maps.{lookup}
use tensorrt_rs.Errors.{Error, panicked}
use tensorrt_rs.Tensor.{DeviceInputTensor, DeviceOutputTensor}
use tensorrt_rs.Engine.{Driver, ExecutionContext, CudaStream}
use tensorrt_rs.Session.State.{Session, CudaGraphKey, cuda_graph_key_eq, DeviceRunCompletion}
use tensorrt_rs.Session.Pool.{return_context, reclaim_finished_graphs}
use tensorrt_rs.Session.Graph.{
  cuda_graph_key, should_skip_cuda_graph_capture, record_cuda_graph_capture_failure,
  clear_cuda_graph_capture_backoff, capture_device_graph, enqueue_and_defer, launch_and_defer,
}

module _ {Raw Gpu : Type 0} (d : Driver Raw Gpu) (order : ℕ) (inputs : List DeviceInputTensor)
    (outputs : List DeviceOutputTensor) (stream : CudaStream) (run : DeviceRunCompletion) where
  -- The attempt to capture a graph, and the normal enqueue where it fails. The context of a captured
  -- graph stays with the graph.
  unfoldable pub capture_or_enqueue :
      CudaGraphKey → ExecutionContext Raw → Exec (Session Raw Gpu) Error (Unit {0})
  unfolding capture_device_graph clear_cuda_graph_capture_backoff lookup launch_and_defer
      record_cuda_graph_capture_failure enqueue_and_defer
  capture_or_enqueue key c s =
      let (r, (c', s')) = capture_device_graph d order inputs outputs stream key (c, s) in
      elim r [
        | ok _ ↦
            let s'' = record s' {
              cuda_graph_backoff = clear_cuda_graph_capture_backoff key s'.cuda_graph_backoff;
            } in
            elim (lookup key s''.cuda_graph_cache) [
              | none ↦ (err panicked, s'')
              | some entry ↦ launch_and_defer d key entry stream run s''
            ]
        | err e ↦ enqueue_and_defer d c' inputs outputs stream run (record s' {
          cuda_graph_backoff = record_cuda_graph_capture_failure key s'.cuda_graph_backoff;
        })
      ]

  -- The part that follows where no graph is cached under the key.
  unfoldable pub enqueue_uncached :
      CudaGraphKey → ExecutionContext Raw → Exec (Session Raw Gpu) Error (Unit {0})
  unfolding should_skip_cuda_graph_capture capture_or_enqueue enqueue_and_defer
  enqueue_uncached key c s =
      if is_empty s.in_flight_graphs
      then (let (skip, backoff) = should_skip_cuda_graph_capture key s.cuda_graph_backoff in
          let s' = record s { cuda_graph_backoff = backoff } in
          if skip
          then enqueue_and_defer d c inputs outputs stream run s'
          else capture_or_enqueue key c s')
      else enqueue_and_defer d c inputs outputs stream run s

  -- The pooled context goes back to the pool where it is not used: on an early error, and where
  -- a cached graph is launched, which has a context of its own.
  unfoldable pub enqueue_device_auto_graph :
      ExecutionContext Raw → Exec (Session Raw Gpu) Error (Unit {0})
  unfolding reclaim_finished_graphs cuda_graph_key lookup launch_and_defer return_context
      enqueue_uncached
  enqueue_device_auto_graph c s =
      let (r, s') = reclaim_finished_graphs d s in
      elim r [
        | err e ↦ (err e, return_context d c s')
        | ok _ ↦ elim (cuda_graph_key s'.io inputs outputs stream) [
          | err e ↦ (err e, return_context d c s')
          | ok key ↦ elim (lookup key s'.cuda_graph_cache) [
            | some entry ↦
                let (r', s'') = launch_and_defer d key entry stream run s' in
                (r', return_context d c s'')
            | none ↦ enqueue_uncached key c s'
          ]
        ]
      ]
