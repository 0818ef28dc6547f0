-- ===== src/Llm/Executor/History.antt =====
-- An executor that uses its buffers again answers as one that makes new ones.
use tensorrt_rs.Prelude.{
  ◌≡◌, refl, List, [], ◌∷◌, map, Result, ok, err, Result-cases, inl, inr, ◌⊎◌,
}
use tensorrt_rs.Llm.Errors.{Error}
use tensorrt_rs.Llm.Config.{ValidationProfile}
use tensorrt_rs.Llm.Requests.{Request}
use tensorrt_rs.Llm.Executor.Validate.{validate_request}
use tensorrt_rs.Llm.Executor.Sys.{SysRequest}
use tensorrt_rs.Llm.Executor.Tensors.{Candle}
use tensorrt_rs.Llm.Executor.Buffers.{RequestBuffers, checkout, fill_buffers}
use tensorrt_rs.Llm.Executor.Structure.{request_as_sys}
use tensorrt_rs.Llm.Executor.Prepare.{request_tensors, prepare_request}
use tensorrt_rs.Llm.Executor.Prepared.{Reachable, taken, given, Reachable-checkout}
use tensorrt_rs.Llm.Executor.Responses.{Response, NativeRun, run}
use tensorrt_rs.Llm.Outputs.Lazy.{RawOutputGuard}

module _ {Tensor : Type 0} (candle : Candle Tensor) (profile : ValidationProfile)
    (native : SysRequest → NativeRun) (guard : RawOutputGuard) where
  -- Both are refused alike, or hand the same to the C side.
  prepared_alike :
      (pool : List RequestBuffers) (request : Request Tensor)
      → Reachable pool
      → ((e : Error) × (prepare_request candle profile pool request ≡ err e)
          × (prepare_request candle profile [] request ≡ err e))
        ⊎ ((sys : SysRequest) × (b : RequestBuffers) × (prepare_request candle profile pool request
              ≡ ok (sys, b, (checkout pool).1))
            × (prepare_request candle profile [] request ≡ ok (sys, b, (checkout []).1)))
  unfolding prepare_request
  prepared_alike pool request r =
      let fresh = Reachable-checkout pool r in
      elim (Result-cases (validate_request profile request)) [
        | inr (e, v) ↦ inl (e, rw v, rw v)
        | inl (u, v) ↦ elim (Result-cases (request_tensors candle profile request)) [
          | inr (e, t) ↦ inl (e, rw (v, t), rw (v, t))
          | inl (tensors, t) ↦
              let b = fill_buffers request (checkout []).0 in
              inr (request_as_sys profile request tensors b, b, rw (v, t, fresh), rw (v, t))
        ]
      ]

  run-Reachable :
      (pool : List RequestBuffers) (request : Request Tensor)
      → Reachable pool
      → ((run candle profile native guard pool request).0
          ≡ (run candle profile native guard [] request).0)
        × Reachable (run candle profile native guard pool request).1
  unfolding run
  run-Reachable pool request r = elim (prepared_alike pool request r) [
    | inl (e, p, q) ↦ rw (p, q) (refl, r)
    | inr (sys, b, p, q) ↦ rw (p, q) (refl, given (taken r) b)
  ]

  -- The answers to one request after the other, with the pool that each leaves to the next.
  unfoldable pub answers :
      List RequestBuffers → List (Request Tensor) → List (Result Error (Response Tensor))
  unfolding run
  answers pool [] = []
  answers pool (request ∷ requests) =
      (run candle profile native guard pool request).0
      ∷ answers (run candle profile native guard pool request).1 requests

  -- Requests that are served one after the other, from any pool that requests can have left, are each
  -- answered as by an executor that has served none: nothing of a buffer's former contents is left.
  -- The native executor is a function of the request that it is handed.
  pub answers-map :
      (pool : List RequestBuffers) (requests : List (Request Tensor))
      → Reachable pool
      → answers pool requests
        ≡ map (λ request. (run candle profile native guard [] request).0) requests
  unfolding answers
  answers-map pool [] r = refl
  answers-map pool (request ∷ requests) r =
      let (same, later) = run-Reachable pool request r in
      let rest = answers-map (run candle profile native guard pool request).1 requests later in
      rw (same, rest)
