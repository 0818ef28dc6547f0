-- ===== src/Session/Pool.antt =====
-- tensorrt/src/session.rs: the pools of contexts and events, and the work in flight.
use tensorrt_rs.Prelude.{
  ℕ, zero, suc, true, false, List, [], ◌∷◌, ◌++◌, map, none, some, ok, err, length, get_elem?,
}
use tensorrt_rs.Prelude.Exec.{Exec, ◌>>◌, for_each}
use tensorrt_rs.Prelude.Maps.{lookup, insert}
use tensorrt_rs.Prelude.Vectors.{push, pop, swap_remove}
use tensorrt_rs.Errors.{Error, panicked, allocation_failed}
use tensorrt_rs.Tensor.{TensorInfo, TensorShape}
use tensorrt_rs.Engine.{
  Driver, ExecutionContext, DeviceLocation, device_location_eq, CudaStream, query_event,
  create_execution_context, set_tensor_address, new_for_device_location, synchronize_stream,
  record_event,
}
use tensorrt_rs.Session.State.{Session, InFlightContext, InFlightGraph, CudaGraphEntry, IoTensors}
use tensorrt_rs.Session.Shapes.{infer_shapes_with_context}

-- The variables of the loops that reclaim finished work.
pub record Reclaim (X Gpu : Type 0) : Type 0 where
  pub in_flight : List X
  pub completed : List X
  pub gpu : Gpu

module _ {Raw Gpu X : Type 0} (d : Driver Raw Gpu) (event_of : X → ℕ) where
  -- `while index < in_flight.len()`: the one loop of `reclaim_finished_contexts` and of
  -- `reclaim_finished_graphs`. A round leaves one entry less to look at, so as many rounds as there
  -- are entries are enough.
  unfoldable pub reclaim_loop : ℕ → ℕ → Exec (Reclaim X Gpu) Error (Unit {0})
  unfolding query_event swap_remove push
  reclaim_loop zero index s = (ok tt, s)
  reclaim_loop (suc rounds) index s = elim (get_elem? s.in_flight index) [
    | none ↦ (ok tt, s)
    | some x ↦
        let (finished, g) = query_event d (event_of x) s.gpu in
        elim finished [
          | err e ↦ (err e, record s { gpu = g })
          | ok true ↦ elim (swap_remove s.in_flight index) [
            | none ↦ (err panicked, record s { gpu = g })
            | some (rest, y) ↦
                reclaim_loop rounds index
                  (record { in_flight = rest; completed = push s.completed y; gpu = g })
          ]
          | ok false ↦ reclaim_loop rounds (suc index) (record s { gpu = g })
        ]
  ]

-- `event_pool.entry(device_location).or_default().push(event)`
unfoldable pub push_event :
    List (DeviceLocation × List ℕ) → DeviceLocation × ℕ → List (DeviceLocation × List ℕ)
unfolding lookup insert push
push_event pool (location, event) = elim (lookup location pool) [
  | none ↦ insert location (event ∷ []) pool
  | some events ↦ insert location (push events event) pool
]

unfoldable pub push_events :
    List (DeviceLocation × List ℕ) → List (DeviceLocation × ℕ) → List (DeviceLocation × List ℕ)
unfolding push_event
push_events pool [] = pool
push_events pool (e ∷ es) = push_events (push_event pool e) es

unfoldable pub context_event : {Raw : Type 0} → InFlightContext Raw → DeviceLocation × ℕ
context_event x = (x.device_location, x.event)

unfoldable pub graph_event : {Raw : Type 0} → InFlightGraph Raw → DeviceLocation × ℕ
graph_event x = (x.device_location, x.event)

module _ {Raw Gpu : Type 0} (d : Driver Raw Gpu) where
  -- An error drops what was reclaimed before it.
  unfoldable pub reclaim_finished_contexts : Exec (Session Raw Gpu) Error (Unit {0})
  unfolding reclaim_loop push_events context_event
  reclaim_finished_contexts s =
      let (r, l) =
        reclaim_loop d (λ (x : InFlightContext Raw). x.event) (length s.in_flight_contexts) 0
          (record { in_flight = s.in_flight_contexts; completed = []; gpu = s.gpu }) in
      elim r [
        | err e ↦ (err e, record s { in_flight_contexts = l.in_flight; gpu = l.gpu })
        | ok _ ↦ (
          ok tt,
          record s {
            context_pool =
                s.context_pool ++ map (λ (x : InFlightContext Raw). x.context) l.completed;
            in_flight_contexts = l.in_flight;
            event_pool = push_events s.event_pool (map context_event l.completed);
            gpu = l.gpu;
          },
        )
      ]

  unfoldable pub reclaim_finished_graphs : Exec (Session Raw Gpu) Error (Unit {0})
  unfolding reclaim_loop push_events graph_event
  reclaim_finished_graphs s =
      let (r, l) =
        reclaim_loop d (λ (x : InFlightGraph Raw). x.event) (length s.in_flight_graphs) 0
          (record { in_flight = s.in_flight_graphs; completed = []; gpu = s.gpu }) in
      elim r [
        | err e ↦ (err e, record s { in_flight_graphs = l.in_flight; gpu = l.gpu })
        | ok _ ↦ (
          ok tt,
          record s {
            in_flight_graphs = l.in_flight;
            event_pool = push_events s.event_pool (map graph_event l.completed);
            gpu = l.gpu;
          },
        )
      ]

  -- A call of the native libraries that changes no other part of the session.
  abbrev pub on_gpu : {A : Type 0} → Exec Gpu Error A → Exec (Session Raw Gpu) Error A
  on_gpu m s = let (r, g) = m s.gpu in (r, record s { gpu = g })

  unfoldable pub clear_tensor_addresses : IoTensors → Exec (ExecutionContext Raw) Error (Unit {0})
  unfolding for_each set_tensor_address
  clear_tensor_addresses io =
      for_each (λ (t : TensorInfo). set_tensor_address d t.name 0) io.io_tensors

  -- `context_pool.pop()`, and a new context where the pool is empty. A context from the pool whose
  -- addresses cannot be reset is dropped.
  unfoldable pub take_context : Exec (Session Raw Gpu) Error (ExecutionContext Raw)
  unfolding pop create_execution_context clear_tensor_addresses
  take_context s = elim (pop s.context_pool) [
    | none ↦ on_gpu (create_execution_context d) s
    | some (rest, c) ↦
        let (r, c') = clear_tensor_addresses s.io c in
        elim r [
          | err e ↦ (err e, record s { context_pool = rest })
          | ok _ ↦ (ok c', record s { context_pool = rest })
        ]
  ]

  unfoldable pub pooled_execution_context : Exec (Session Raw Gpu) Error (ExecutionContext Raw)
  unfolding reclaim_finished_contexts reclaim_finished_graphs take_context
  pooled_execution_context = do reclaim_finished_contexts; reclaim_finished_graphs; take_context

  -- `Drop for PooledExecutionContext`: the context goes back to the pool.
  unfoldable pub return_context : ExecutionContext Raw → Session Raw Gpu → Session Raw Gpu
  unfolding push
  return_context c s = record s { context_pool = push s.context_pool c }

  -- A body that holds a pooled context, which goes back to the pool however the body ends.
  unfoldable pub with_pooled_context :
      {A : Type 0}
      → Exec (ExecutionContext Raw × Session Raw Gpu) Error A
      → Exec (Session Raw Gpu) Error A
  unfolding pooled_execution_context return_context
  with_pooled_context body s =
      let (r, s') = pooled_execution_context s in
      elim r [
        | err e ↦ (err e, s')
        | ok c ↦ let (result, (c', s'')) = body (c, s') in (result, return_context c' s'')
      ]

  abbrev pub on_context :
      {A : Type 0}
      → Exec (ExecutionContext Raw) Error A
      → Exec (ExecutionContext Raw × Session Raw Gpu) Error A
  on_context m (c, s) = let (r, c') = m c in (r, (c', s))

  unfoldable pub infer_shapes : List TensorShape → Exec (Session Raw Gpu) Error (List TensorInfo)
  unfolding with_pooled_context infer_shapes_with_context
  infer_shapes inputs s =
      with_pooled_context (on_context (infer_shapes_with_context d s.io inputs)) s

  unfoldable pub completion_event : DeviceLocation → Exec (Session Raw Gpu) Error ℕ
  unfolding lookup insert pop new_for_device_location
  completion_event location s = elim (lookup location s.event_pool) [
    | none ↦ on_gpu (new_for_device_location d location) s
    | some events ↦ elim (pop events) [
      | none ↦ on_gpu (new_for_device_location d location) s
      | some (rest, event) ↦ (ok event, record s { event_pool = insert location rest s.event_pool })
    ]
  ]

  unfoldable pub recycle_completion_event : DeviceLocation → ℕ → Session Raw Gpu → Session Raw Gpu
  unfolding push_event
  recycle_completion_event location event s = record s {
    event_pool = push_event s.event_pool (location, event);
  }

  -- The common beginning of the two functions that follow: room for the entry is reserved and the
  -- event is recorded. Where either fails the stream is synchronized and the event recycled.
  unfoldable pub record_completion :
      DeviceLocation → ℕ → CudaStream → Exec (Session Raw Gpu) Error (Unit {0})
  unfolding synchronize_stream record_event recycle_completion_event
  record_completion location event stream s =
      let (room, g) = d.try_reserve s.gpu in
      elim room [
        | false ↦
            let (_, g') = synchronize_stream d stream g in
            (err allocation_failed, recycle_completion_event location event (record s { gpu = g' }))
        | true ↦
            let (r, g') = record_event d event stream g in
            elim r [
              | ok _ ↦ (ok tt, record s { gpu = g' })
              | err e ↦
                  let (_, g'') = synchronize_stream d stream g' in
                  (err e, recycle_completion_event location event (record s { gpu = g'' }))
            ]
      ]

  -- On an error the context, which is still pooled, goes back to the pool.
  unfoldable pub defer_context_until_stream_complete :
      ExecutionContext Raw
      → DeviceLocation
      → ℕ
      → CudaStream
      → List ℕ
      → Exec (Session Raw Gpu) Error (Unit {0})
  unfolding record_completion return_context push
  defer_context_until_stream_complete c location event stream keepalive s =
      let (r, s') = record_completion location event stream s in
      elim r [
        | err e ↦ (err e, return_context c s')
        | ok _ ↦ (
          ok tt,
          record s' {
            in_flight_contexts = push s'.in_flight_contexts (record {
              context = c;
              device_location = location;
              event = event;
              keepalive = keepalive;
            });
          },
        )
      ]

  unfoldable pub defer_graph_until_stream_complete :
      DeviceLocation
      → ℕ
      → CudaStream
      → List ℕ
      → CudaGraphEntry Raw
      → Exec (Session Raw Gpu) Error (Unit {0})
  unfolding record_completion push
  defer_graph_until_stream_complete location event stream keepalive entry s =
      let (r, s') = record_completion location event stream s in
      elim r [
        | err e ↦ (err e, s')
        | ok _ ↦ (
          ok tt,
          record s' {
            in_flight_graphs = push s'.in_flight_graphs (record {
              device_location = location;
              event = event;
              keepalive = keepalive;
              graph_entry = entry;
            });
          },
        )
      ]
